-- ===== src/Tests/Fingerprint.antt =====
-- A payload and the same with its keys in another order.
use api_proxy.Base.{◌≡◌, refl, codes, text_eq}
use api_proxy.Contracts.Json.{Json, end, field}
use api_proxy.Idempotency.Canonical.{payload_fingerprint}
use api_proxy.Idempotency.Order.{Alike, fields, entry, swap, no_more, payload_fingerprint-Alike}
use api_proxy.Tests.Memory.{platform}

abbrev amount : Json
amount = Json.object (
    field (codes "currencyCode") (Json.text (codes "EUR"))
      (field (codes "minorUnits") (Json.number 1200) end))

abbrev reordered : Json
reordered = Json.object (
    field (codes "minorUnits") (Json.number 1200)
      (field (codes "currencyCode") (Json.text (codes "EUR")) end))

abbrev payload : Json → Json
payload v = Json.object (field (codes "amount") v end)

alike : Alike (payload amount) (payload reordered)
unfolding text_eq
alike = fields (entry (codes "amount") (fields (swap _ _ _ _ end refl)) no_more)

payload_fingerprint-Alike_example :
    payload_fingerprint platform (payload amount) ≡ payload_fingerprint platform (payload reordered)
payload_fingerprint-Alike_example = payload_fingerprint-Alike platform alike
