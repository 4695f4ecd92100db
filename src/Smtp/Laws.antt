-- ===== src/Smtp/Laws.antt =====
-- Where the login travels, and what a message looks like on the wire.
use Prim.Native.String.{◌++◌ as ◌+s◌}
use text.Mathlib.TextLemmas.{append_assoc as text_append_assoc}
use maild.Base.{
  ◌≡◌, refl, Bool, true, false, ◌&&◌, ◌||◌, Option, none, some, List, [], ◌∷◌, ◌++◌, String, arith,
  str_eq, two_texts, eq_iff, Bool-cases, inl, inr, ◌∙◌, sym,
}
use maild.Store.Defs.{Result, ok, err}
use maild.Smtp.{
  Credentials, Command, Server, Dialog, secured, auth, normalize_tls_mode, has_login, open_session,
  connect_as, continue, ◌>>=◌, connect, authenticate, send_dialog, validate_dialog, crlf,
  build_message,
}

-- every login of the trace comes after a completed handshake; `tls` is whether there was one
abbrev pub protects : Bool → List Command → Bool
protects tls [] = true
protects tls (secured ∷ cs) = protects true cs
protects tls (auth _ _ ∷ cs) = tls && protects tls cs
protects tls (_ ∷ cs) = protects tls cs

-- the three modes that NormalizeTLSMode lets through
abbrev IsMode : String → Type 0
IsMode mode = (str_eq mode "starttls" || str_eq mode "implicit_tls" || str_eq mode "none") ≡ true

normalized : (mode m : String) → normalize_tls_mode mode ≡ some m → IsMode m
unfolding normalize_tls_mode
normalized mode m h = ground (arith, eq_iff m "starttls")

-- After a session was opened, the logins to come are protected exactly if its answer says so; a
-- session that failed to open has sent no login.
abbrev Opens : Dialog Bool → Type 0
Opens d =
    (protects false d.trace ≡ true)
    × ((tls : Bool) (ds : List Command)
        → d.result ≡ ok tls
        → protects false (d.trace ++ ds) ≡ protects tls ds)

open_session-Opens : (mode : String) (v : Server) → IsMode mode → Opens (open_session mode v)
unfolding open_session
open_session-Opens mode v h = (
  ground arith,
  λ tls ds e. ground (
    arith,
    two_texts mode "starttls" "none",
    two_texts mode "starttls" "implicit_tls",
    two_texts mode "implicit_tls" "none",
  ),
)

connect_as-Opens :
    (o : Option String) (v : Server) (creds : Credentials)
    → ((mode : String) → o ≡ some mode → IsMode mode)
    → Opens (connect_as o v creds)
connect_as-Opens none v creds h = (refl, λ tls ds e. cc)
connect_as-Opens (some mode) v creds h = elim (Bool-cases (str_eq mode "none" && has_login creds)) [
  | inl e ↦ rw e (refl, λ tls ds k. cc)
  | inr e ↦ rw e (open_session-Opens mode v (h mode refl))
]

connect-Opens : (v : Server) (creds : Credentials) → Opens (connect v creds)
unfolding connect
connect-Opens v creds =
    connect_as-Opens (normalize_tls_mode creds.tls_mode) v creds (normalized creds.tls_mode)

-- what follows an opened session
protects-bind :
    (d : Dialog Bool) (f : Bool → Dialog (Unit {0}))
    → Opens d
    → ((tls : Bool) → protects tls (f tls).trace ≡ true)
    → protects false (d >>= f).trace ≡ true
protects-bind d f o k = by_result d.result refl
  where
    by_result :
        (r : Result Bool) → d.result ≡ r → protects false (continue d.trace r f).trace ≡ true
    by_result (ok tls) e = o.1 tls (f tls).trace e ∙ k tls
    by_result (err e) _ = o.0

-- Client.Send and Client.Validate never send a login before a TLS handshake was completed on the
-- connection, whatever the credentials' TLS mode is and whatever the relay answers.
pub send_dialog-protects :
    (v : Server) (creds : Credentials) (to_email subject body : String)
    → (protects false (send_dialog v creds to_email subject body).trace ≡ true)
      × (protects false (validate_dialog v creds).trace ≡ true)
unfolding send_dialog validate_dialog authenticate
send_dialog-protects v creds to_email subject body = (
  protects-bind (connect v creds) _ (connect-Opens v creds) (λ tls. ground arith),
  protects-bind (connect v creds) _ (connect-Opens v creds) (λ tls. ground arith),
)

-- a header block with its blank line, and the body
abbrev pub render : List (String × String) → String → String
render [] body = crlf +s body
render ((name, value) ∷ headers) body = name +s ": " +s value +s crlf +s render headers body

-- the literals of buildMessage, taken apart
colon_from : (t : String) → "From" +s ": " +s t ≡ "From: " +s t
colon_from t = sym (text_append_assoc "From" ": " t)

colon_to : (t : String) → "To" +s ": " +s t ≡ "To: " +s t
colon_to t = sym (text_append_assoc "To" ": " t)

colon_subject : (t : String) → "Subject" +s ": " +s t ≡ "Subject: " +s t
colon_subject t = sym (text_append_assoc "Subject" ": " t)

mime_line :
    (t : String) → "MIME-Version" +s ": " +s "1.0" +s crlf +s t ≡ "MIME-Version: 1.0\r\n" +s t
mime_line t = rw (← text_append_assoc "1.0" crlf t) (
    rw (← text_append_assoc ": " "1.0\r\n" t)
      (sym (text_append_assoc "MIME-Version" ": 1.0\r\n" t)))

type_line :
    (t : String)
    → "Content-Type" +s ": " +s "text/plain; charset=UTF-8" +s crlf +s t
      ≡ "Content-Type: text/plain; charset=UTF-8\r\n" +s t
type_line t = rw (← text_append_assoc "text/plain; charset=UTF-8" crlf t) (
    rw (← text_append_assoc ": " "text/plain; charset=UTF-8\r\n" t)
      (sym (text_append_assoc "Content-Type" ": text/plain; charset=UTF-8\r\n" t)))

-- A subject with a line break in it adds a header of its own to the message: buildMessage puts
-- what follows the break on a line by itself.
pub build_message_adds_header :
    (sender to_email subject name value body : String)
    → build_message sender to_email (subject +s crlf +s name +s ": " +s value) body
      ≡ render
          (("From", sender)
            ∷ ("To", to_email)
            ∷ ("Subject", subject)
            ∷ (name, value)
            ∷ ("MIME-Version", "1.0")
            ∷ ("Content-Type", "text/plain; charset=UTF-8")
            ∷ [])
          body
unfolding build_message
build_message_adds_header sender to_email subject name value body =
    simp (text_append_assoc, colon_from, colon_to, colon_subject, mime_line, type_line)
