-- ===== src/Models/Body.antt =====
-- `Message.body` of a message that reports its payload.
use ip_commandmic.Prelude.{◌≡◌, refl, ◌∙◌, ap, Bytes, IsBytes, none, some, hex, from_hex-hex}
use ip_commandmic.Models.{chars, get, Message, body, body_of, raw_body}

-- The body is the payload that the metadata holds in hexadecimal.
pub body_of_payload :
    (m : Message) (payload : Bytes)
    → get m.metadata "payload_hex" ≡ some (chars (hex payload))
    → IsBytes payload
    → body m ≡ some payload
body_of_payload m payload e h = opened ∙ ap (body_of m) e ∙ unfold body_of in from_hex-hex payload h
  where
    opened : body m ≡ body_of m (get m.metadata "payload_hex")
    opened = unfold body in refl

-- A message that reports no payload still has a body.
pub body_without_payload :
    (m : Message)
    → get m.metadata "payload_hex" ≡ none
    → (payload : Bytes) × (body m ≡ some payload)
unfolding body
body_without_payload m e = (raw_body m, ap (body_of m) e ∙ unfold body_of in refl)
