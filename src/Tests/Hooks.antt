-- ===== src/Tests/Hooks.antt =====
-- A signed delivery to the webhook of the workflow, and its repetition.
use oarlock.Prelude.{◌≡◌, refl, ◌⊎◌, Text, codes, text_eq, true, Option, none, some, [], ◌∷◌, ◌++◌}
use oarlock.Prelude.Tables.{find}
use oarlock.Json.{Value, end, escape}
use oarlock.Engine.Store.{Db}
use oarlock.Api.Hooks.{Hook, Delivery, Answer, accepted, hook_at, is_live_hook, webhook}
use oarlock.Api.Hooks.Once.{webhook-signed}
use oarlock.Tests.Fixtures.{uuid, db_deployed}

abbrev order_hook : Hook
order_hook = record {
  slug = codes "acme";
  path = codes "orders";
  workspace = 7;
  trigger = 4;
  workflow = 1;
  trigger_enabled = true;
  secret = some (codes "k");
  workflow_enabled = true;
  has_version = true;
}

-- Not a real code, but it depends on the secret and the body.
abbrev toy_hmac : Text → Text → Text
toy_hmac secret body = secret ++ body

abbrev no_json : Text → Option Value
no_json body = none

abbrev order : Delivery
order = record {
  slug = codes "acme";
  path = codes "orders";
  body = codes "x";
  signature = codes "kx";
  idempotency_key = codes "order-1";
  query = end;
}

abbrev delivered : Db × Answer
delivered = webhook uuid toy_hmac no_json (order_hook ∷ []) order db_deployed

order_delivered : delivered ≡ (delivered.0, accepted 0)
unfolding webhook text_eq escape
order_delivered = refl

webhook-signed_example :
    (h : Hook) × (find (hook_at (codes "acme") (codes "orders")) (order_hook ∷ []) ≡ some h)
    × (is_live_hook h ≡ true)
    × ((h.secret ≡ none)
        ⊎ (h.secret ≡ some [])
        ⊎ ((s : Text) × (h.secret ≡ some s) × (toy_hmac s (codes "x") ≡ codes "kx")))
webhook-signed_example =
    webhook-signed uuid toy_hmac no_json (order_hook ∷ []) order db_deployed delivered.0 0
      order_delivered

abbrev later : Db
later = record delivered.0 { jobs = [] }

-- The secret has been rotated meanwhile.
abbrev rotated_hook : Hook
rotated_hook = record order_hook { secret = some (codes "j") }

abbrev repeated : Db × Answer
repeated =
    webhook uuid toy_hmac no_json (rotated_hook ∷ [])
      (record order { body = codes "y"; signature = codes "jy"; query = end }) later

-- A delivery with another signature starts nothing.
forged_test :
    webhook uuid toy_hmac no_json
      (order_hook ∷ [])
      (record order { signature = codes "ky" })
      db_deployed
    ≡ (db_deployed, Answer.bad_signature)
unfolding webhook text_eq escape
forged_test = refl
