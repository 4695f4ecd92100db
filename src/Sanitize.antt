-- ===== src/Sanitize.antt =====
-- internal/sanitize/error.go: what of a relay's error is stored and shown.
use Prim.Native.String.{len, slice}
use Prim.Native.String.{◌++◌ as ◌+s◌}
use maild.Base.{ℕ, ◌==◌, ◌||◌, String, ltb, str_eq, if◌then◌else◌}
use maild.Text.{trim_space, to_lower, contains}

-- the text after `n` bytes of it, where U+FFFD stands for the bytes of a character that the cut splits
unfoldable pub cut_bytes : ℕ → String → String
cut_bytes n text = let kept = slice text 0 n in if len kept == n then kept else kept +s "�"

-- SMTPError
unfoldable pub smtp_error : String → String
unfolding cut_bytes
smtp_error raw =
    let out = trim_space raw in
    let low = to_lower out in
    if str_eq out ""
    then "smtp delivery failed"
    else if contains low "timeout" || contains low "i/o timeout"
    then "smtp timeout"
    else if contains low "connection refused" || contains low "refused"
    then "smtp connection refused"
    else if contains low "password"
        || contains low "auth"
        || contains low "credential"
        || contains low "plainauth"
    then "smtp authentication failed"
    else if ltb 240 (len out)
    then cut_bytes 240 out
    else out

-- HTTPInternalError
unfoldable pub http_internal_error : {E : Type 0} → E → String
http_internal_error e = "internal server error"
