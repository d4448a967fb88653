-- ===== src/Tests/Secrets.antt =====
-- Secrets and servers.
use oarlock.Prelude.{
  ◌≡◌, refl, Text, text_eq, codes, true, false, Option, none, some, [], ◌∷◌, ◌++◌, Memᴰ, arith,
  if◌then◌else◌,
}
use oarlock.Prelude.Tables.{any_row}
use oarlock.Json.{Value, str, arr, obj, nil, cons, field, end, marshal}
use oarlock.Api.Workflows.{WorkflowRow, Catalog}
use oarlock.Api.Uses.{matches_name, mentions, any_step, current_definition}
use oarlock.Api.Secrets.{
  SecretTable, SecretReq, generic, owned, create_secret, rotate_secret, delete_secret,
}
use oarlock.Api.Secrets.Stored.{create_secret-stores, rotate_secret-opens}
use oarlock.Api.Secrets.Unused.{delete_secret-unused}
use oarlock.Api.Servers.{Servers, ServerReq, enabled, update_server}
use oarlock.Api.Servers.Resolved.{update_server-resolves}
use oarlock.Vault.{
  Cipher, IsAead, SecretRow, ServerRow, named, open_secret, workspace_secrets, server,
}
use oarlock.Vault.Opens.{payload}

-- A cipher that seals nothing, with nonces of two bytes.
abbrev plain : Cipher
plain = record { seal = λ nonce text. text; open_sealed = λ nonce text. some text; nonce_size = 2 }

plain-IsAead : IsAead plain
plain-IsAead = record { open_sealed-seal = λ nonce text. refl; nonce_size-pos = omega arith }

abbrev nonce : Text
nonce = 1 ∷ 2 ∷ []

abbrev parse_json : Text → Option Value
parse_json t =
    if text_eq t (marshal (payload (codes "k2")))
    then some (payload (codes "k2"))
    else some (payload (codes "k1"))

abbrev first : SecretReq
first = record { name = codes " stripe "; type = generic; provider = []; value = codes "k1 " }

abbrev none_yet : SecretTable
none_yet = record { rows = []; next_id = 5 }

abbrev row : SecretRow
row = record {
  id = 5;
  workspace = 7;
  name = codes "stripe";
  type = generic;
  provider = none;
  encrypted_data = nonce ++ marshal (payload (codes "k1"));
}

abbrev one_secret : SecretTable
one_secret = record { rows = row ∷ []; next_id = 6 }

create_secret-stores_example :
    (matches_name (codes "stripe") ≡ true)
    × (any_row (named 7 (codes "stripe")) [] ≡ false)
    × (workspace_secrets plain parse_json 7 one_secret.rows
        ≡ some ((codes "stripe", codes "k1") ∷ []))
unfolding create_secret workspace_secrets
create_secret-stores_example =
    create_secret-stores plain plain-IsAead parse_json nonce refl 7 5 first [] none_yet one_secret
      refl refl refl

abbrev one_rotated : SecretTable
one_rotated = record {
  rows = record row { encrypted_data = nonce ++ marshal (payload (codes "k2")) } ∷ [];
  next_id = 6;
}

rotate_secret-opens_example :
    (any_row (owned 5 7) one_secret.rows ≡ true)
    × ((s' : SecretRow) × Memᴰ s' one_rotated.rows
        × (s'.id ≡ 5)
        × (s'.workspace ≡ 7)
        × (s'.name ≡ codes "stripe")
        × (open_secret plain parse_json s'.encrypted_data ≡ (
            if owned 5 7 row
            then some (codes "k2")
            else open_secret plain parse_json row.encrypted_data)))
unfolding rotate_secret
rotate_secret-opens_example =
    rotate_secret-opens plain plain-IsAead parse_json nonce refl 7 5 (codes " k2") one_secret
      one_rotated row refl refl (Memᴰ.head refl)

abbrev definition : Value
definition = obj (
    field (codes "steps")
      (arr (cons (obj (field (codes "type") (str (codes "transform")) end)) nil)) end)

abbrev workflow : WorkflowRow
workflow = record {
  id = 1;
  workspace = 7;
  name = codes "w";
  slug = codes "w";
  is_enabled = true;
  current_version = some 2;
}

abbrev catalog : Catalog
catalog = record {
  workflows = workflow ∷ [];
  versions = record { id = 2; workflow = 1; version = 1; definition = definition } ∷ [];
  next_id = 3;
}

delete_secret-unused_example :
    (s : SecretRow) × Memᴰ s one_secret.rows
    × (owned 5 7 s ≡ true)
    × (mentions s.name (marshal definition) ≡ false)
    × (any_step marshal (codes "ai.") (codes "api_key") s.name definition ≡ some false)
unfolding delete_secret current_definition marshal
delete_secret-unused_example =
    delete_secret-unused marshal 7 5 catalog one_secret (record { rows = []; next_id = 6 }) refl
      (Memᴰ.head refl) refl refl

abbrev tools : ServerRow
tools = record {
  id = 4;
  workspace = 7;
  name = codes "tools";
  url = codes "http://a";
  auth_encrypted = none;
  is_enabled = true;
}

abbrev req : ServerReq
req = record {
  name = codes "tools2";
  url = codes "https://b ";
  auth_header = some (codes "Bearer x");
  is_enabled = none;
}

abbrev servers : Servers
servers = record { rows = tools ∷ []; next_id = 5 }

abbrev renamed : ServerRow
renamed = record tools {
  name = codes "tools2";
  url = codes "https://b";
  auth_encrypted = some (nonce ++ codes "Bearer x");
}

abbrev renamed_servers : Servers
renamed_servers = record servers { rows = renamed ∷ [] }

update_server-resolves_example :
    server plain 7 (codes "tools2") renamed_servers.rows
    ≡ (if enabled req then some (codes "https://b", codes "Bearer x") else none)
unfolding update_server
update_server-resolves_example =
    update_server-resolves plain plain-IsAead marshal 7 4 req nonce (codes "Bearer x") catalog
      servers renamed_servers refl refl refl

-- A reference by an index is no mention.
index_test : mentions (codes "my-key") (codes "{{ secrets[\"my-key\"] }}") ≡ false
unfolding mentions
index_test = refl
