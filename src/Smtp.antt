-- ===== src/Smtp.antt =====
-- internal/smtpclient/smtpclient.go: the dialog with a relay. The commands that go out, and that
-- the connection became a TLS connection, are the trace of the dialog; what the network and the
-- relay do (package net, crypto/tls, net/smtp) is a `Server`, a value that the environment chooses.
pub mod Laws
use Prim.Native.String.{◌++◌ as ◌+s◌}
use maild.Base.{
  ℕ, Bool, true, false, ◌&&◌, ◌||◌, not, Option, none, some, List, [], ◌∷◌, ◌++◌, String, ◌==◌,
  str_eq, if◌then◌else◌,
}
use maild.Text.{contains}
use maild.Decimal.{decimal}
use maild.Store.Defs.{smtp_error, Result, ok, err}

pub record Credentials : Type 0 where
  pub host : String
  pub port : ℕ
  pub username : String
  pub password : String
  pub sender : String
  pub tls_mode : String

pub data Command : Type 0 where
  dial dial_tls starttls secured mail rcpt data_start noop : Command
  auth : String → String → Command
  message : String → Command

-- the answer to each step: an error, or none
pub record Server : Type 0 where
  pub on_dial : Option String
  pub on_greeting : Option String
  pub offers_starttls : Bool
  pub on_starttls : Option String
  pub on_auth : Option String
  pub on_mail : Option String
  pub on_rcpt : Option String
  pub on_data : Option String
  pub on_write : Option String
  pub on_close : Option String
  pub on_noop : Option String
  pub took : Bool  -- the message was taken over although closing it gave an error

abbrev pub good_server : Server
good_server = record {
  on_dial = none;
  on_greeting = none;
  offers_starttls = true;
  on_starttls = none;
  on_auth = none;
  on_mail = none;
  on_rcpt = none;
  on_data = none;
  on_write = none;
  on_close = none;
  on_noop = none;
  took = true;
}

-- what was sent, and how it ended
pub record Dialog (A : Type 0) : Type 0 where
  pub trace : List Command
  pub result : Result A

abbrev pub done : {A : Type 0} → A → Dialog A
done a = record { trace = []; result = ok a }

abbrev pub fail : {A : Type 0} → String → Dialog A
fail text = record { trace = []; result = err (smtp_error text) }

abbrev pub after : {B : Type 0} → List Command → Dialog B → Dialog B
after trace d = record { trace = trace ++ d.trace; result = d.result }

abbrev pub continue : {A B : Type 0} → List Command → Result A → (A → Dialog B) → Dialog B
continue trace (ok a) f = after trace (f a)
continue trace (err e) f = record { trace = trace; result = err e }

infixl 5 ◌>>=◌ ◌>>◌
abbrev pub ◌>>=◌ : {A B : Type 0} → Dialog A → (A → Dialog B) → Dialog B
d >>= f = continue d.trace d.result f

abbrev pub ◌>>◌ : {B : Type 0} → Dialog (Unit {0}) → Dialog B → Dialog B
d >> e = d >>= λ _. e

-- one command with its answer
abbrev pub step : Command → Option String → Dialog (Unit {0})
step c none = record { trace = c ∷ []; result = ok tt }
step c (some text) = record { trace = c ∷ []; result = err (smtp_error text) }

-- a handshake: after it the connection is a TLS connection
abbrev pub handshake : Command → Option String → Dialog (Unit {0})
handshake c none = record { trace = c ∷ secured ∷ []; result = ok tt }
handshake c (some text) = record { trace = c ∷ []; result = err (smtp_error text) }

-- an answer that no command asked for
abbrev pub answer : Option String → Dialog (Unit {0})
answer none = done tt
answer (some text) = fail text

-- NormalizeTLSMode
unfoldable pub normalize_tls_mode : String → Option String
normalize_tls_mode mode =
    if str_eq mode ""
    then some "starttls"
    else if str_eq mode "starttls" || str_eq mode "implicit_tls" || str_eq mode "none"
    then some mode
    else none

abbrev pub has_login : Credentials → Bool
has_login creds = not (str_eq creds.username "") || not (str_eq creds.password "")

abbrev pub dial_as : String → Server → Dialog (Unit {0})
dial_as mode v =
    if str_eq mode "implicit_tls" then handshake dial_tls v.on_dial else step dial v.on_dial

abbrev pub upgrade : String → Server → Dialog (Unit {0})
upgrade mode v =
    if str_eq mode "starttls"
    then if v.offers_starttls
      then handshake starttls v.on_starttls
      else fail "smtp TLS is required but unavailable"
    else done tt

-- connect after the mode is known; the answer is whether the connection is a TLS connection
unfoldable pub open_session : String → Server → Dialog Bool
open_session mode v = do
  dial_as mode v
  answer v.on_greeting
  upgrade mode v
  done (not (str_eq mode "none"))

abbrev pub connect_as : Option String → Server → Credentials → Dialog Bool
connect_as none v creds = fail "unsupported SMTP TLS mode"
connect_as (some mode) v creds =
    if str_eq mode "none" && has_login creds
    then fail "SMTP authentication requires TLS"
    else open_session mode v

-- connect
unfoldable pub connect : Server → Credentials → Dialog Bool
connect v creds = connect_as (normalize_tls_mode creds.tls_mode) v creds

-- authenticate; `tls` is whether TLSConnectionState answers
unfoldable pub authenticate : Bool → Server → Credentials → Dialog (Unit {0})
authenticate tls v creds =
    if has_login creds
    then if tls
      then step (auth creds.username creds.password) v.on_auth
      else fail "SMTP authentication requires TLS"
    else done tt

abbrev pub crlf : String
crlf = "\r\n"

-- buildMessage
unfoldable pub build_message : String → String → String → String → String
build_message sender to_email subject body =
    "From: " +s sender +s crlf +s "To: " +s to_email +s crlf +s "Subject: " +s subject +s crlf
    +s "MIME-Version: 1.0\r\n" +s "Content-Type: text/plain; charset=UTF-8\r\n" +s crlf +s body

-- Client.Send
unfoldable pub send_dialog : Server → Credentials → String → String → String → Dialog (Unit {0})
send_dialog v creds to_email subject body = do
  tls ← connect v creds
  authenticate tls v creds
  step mail v.on_mail
  step rcpt v.on_rcpt
  step data_start v.on_data
  step (message (build_message creds.sender to_email subject body)) v.on_write
  answer v.on_close

-- Client.Validate
unfoldable pub validate_dialog : Server → Credentials → Dialog (Unit {0})
validate_dialog v creds = do tls ← connect v creds; authenticate tls v creds; step noop v.on_noop

-- the text that went out, if it did
unfoldable pub sent_text : List Command → Option String
sent_text [] = none
sent_text (message text ∷ _) = some text
sent_text (_ ∷ cs) = sent_text cs

abbrev is_ok : Result (Unit {0}) → Bool
is_ok (ok _) = true
is_ok (err _) = false

-- the text that the relay took over: it went out whole, and the relay said so or kept it anyway
abbrev pub delivered : Server → Dialog (Unit {0}) → Option String
delivered v d = elim v.on_write [
  | some _ ↦ none
  | none ↦ if is_ok d.result || v.took then sent_text d.trace else none
]

-- net.JoinHostPort(host, strconv.Itoa(port)): an address with a colon or a percent sign goes in
-- brackets
unfoldable pub address : String → ℕ → String
address host port =
    if contains host ":" || contains host "%"
    then "[" +s host +s "]:" +s decimal port
    else host +s ":" +s decimal port

-- ProviderName
unfoldable pub provider_name : Credentials → String
unfolding address
provider_name creds = address creds.host creds.port
