-- ===== src/Api/Receipt.antt =====
-- What the receiver of webhooks does with a delivery.
use maild.Base.{
  ℕ, ◌+◌, ◌-◌, ◌^◌, ◌<◌, ◌≡◌, ◌⊎◌, inl, inr, refl, ◌∙◌, Bool, true, false, Option, none, some, List,
  [], ◌∷◌, String, arith, str_eq, if◌then◌else◌, length,
}
use maild.Base.Int.{pos}
use maild.World.{World, pure, ◌>>=◌, clock}
use maild.World.Ends.{Ends, Ends-pure, Ends-bind, Ends-any, weaken}
use maild.Service.Defs.{MessageService}
use maild.Webhook.{Verdict, accepted, refused, verify}
use maild.Webhook.Signed.{IsSigned, verify-IsSigned}
use maild.Webhook.Parse.{Request}
use maild.Webhook.Laws.{IsSound, All}
use maild.Api.Defs.{fail}
use maild.Api.Webhooks.{
  Receiver, Delivery, limit_text, trimmed, Tally, receive_one, receive_all, receive_verified,
  receive_body, receive_webhook_event,
}

-- the bytes of the delivery that are read
abbrev pub read_text : String → String
read_text body = limit_text body 1048576

-- the delivery has a body, and is signed
abbrev pub Genuine : Receiver → Delivery → World → Type 0
Genuine h d w =
    (body : String) × (d.body ≡ some body)
    × IsSigned h.library h.verifier d.timestamp_header d.signature_header (read_text body)
        (pos w.state.now)

-- A delivery that changes anything at all is signed: its timestamp is at most the tolerance away and
-- its signature is the MAC of the timestamp and the body that was read, where the tolerance is less
-- than the greatest duration.
pub receive_webhook_event-IsSigned :
    (h : Receiver) (d : Delivery) (w : World)
    → h.verifier.max_skew < 2 ^ 63 - 1
    → ((receive_webhook_event h d w).1 ≡ w) ⊎ Genuine h d w
unfolding receive_webhook_event pure ◌>>=◌ clock
receive_webhook_event-IsSigned h d w k = by_method (str_eq d.method "POST")
  where
    by_verdict :
        (body : String) (v : Verdict)
        → d.body ≡ some body
        → verify h.library h.verifier d.timestamp_header d.signature_header
            (read_text body)
            (pos w.state.now)
          ≡ v
        → ((receive_verified h (read_text body) v w).1 ≡ w) ⊎ Genuine h d w
    by_verdict body (refused e) b q = inl refl
    by_verdict body accepted b q =
        inr (body, b, (verify-IsSigned h.library h.verifier _ _ _ _ k).0 q)

    by_body : (o : Option String) → d.body ≡ o → ((receive_body h d o w).1 ≡ w) ⊎ Genuine h d w
    by_body none b = inl refl
    by_body (some body) b = by_verdict body _ b refl

    by_method :
        (post : Bool)
        → (((if post then receive_body h d d.body else fail 405 "method not allowed") w).1 ≡ w)
          ⊎ Genuine h d w
    by_method true = by_body d.body refl
    by_method false = inl refl

-- every event of the payload is counted once, as processed or as rejected, on top of `t`
abbrev pub Counts : Tally → ℕ → Tally → Type 0
Counts t n t' = (t'.processed ≡ t.processed + n) × (t'.rejected ≡ t.rejected)

sound_email : (r : Request) → IsSound r → str_eq (trimmed r).email "" ≡ false
sound_email r s = s.address.0

one-Counts :
    (s : MessageService) (raw : String) (r : Request) (t : Tally)
    → IsSound r
    → Ends (Counts t 1) (λ _. Unit {0}) (receive_one s raw r t)
unfolding receive_one
one-Counts s raw r t sound = rw (sound_email r sound) (
    Ends-bind _ _ (λ _. Unit {0}) _ _ (Ends-any _ _ _ (λ _. tt) (λ _. tt))
      (λ e _. Ends-pure _ _ _ (omega arith, refl)))

-- The receiver's loop over what the parser accepted processes every event: where it comes to its
-- end, none was passed over for want of an address and none was added to the rejected ones.
pub receive_all-Counts :
    (s : MessageService) (raw : String) (rs : List Request) (t : Tally)
    → All IsSound rs
    → Ends (Counts t (length rs)) (λ _. Unit {0}) (receive_all s raw rs t)
unfolding receive_all
receive_all-Counts s raw [] t h = Ends-pure _ _ _ (omega arith, refl)
receive_all-Counts s raw (r ∷ rs) t h =
    Ends-bind _ _ (Counts t 1) _ _ (one-Counts s raw r t h.0) (λ t' c.
      weaken (λ u d. (omega (arith, c.0, d.0), d.1 ∙ c.1)) (λ e u. u)
        (receive_all-Counts s raw rs t' h.1))
