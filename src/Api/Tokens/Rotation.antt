-- ===== src/Api/Tokens/Rotation.antt =====
-- What a rotation of a token changes for those who present one.
use oarlock.Prelude.{
  ℕ, ◌≡◌, refl, inl, inr, Text, text_eq, text_eq_iff, text_eq_refl, codes, true, false, Option,
  none, some, List, [], ◌∷◌, ◌++◌, arith, if◌then◌else◌, take, Bool-cases, Option-cases,
}
use oarlock.Prelude.Tables.{find, update, delete, any_row}
use oarlock.Api.Http.{reply, error}
use oarlock.Api.Tokens.{
  ApiToken, Tokens, minted, has_hash, owned, rotated, taken_by_other, raw_of, authenticate_token,
  new_api_token, swap_token, rotate_api_token, delete_api_token,
}

-- The workspace of the first row with a hash.
workspace_of : Text → List ApiToken → Option ℕ
workspace_of hashed rows = elim (find (has_hash hashed) rows) [
  | none ↦ none
  | some t ↦ some t.workspace
]

module _ (id workspace : ℕ) (hashed prefix : Text) where
  -- For another hash, the rotated row is as if deleted.
  workspace_of-other :
      (h : Text) (rows : List ApiToken)
      → text_eq hashed h ≡ false
      → workspace_of h (update (owned id workspace) (rotated hashed prefix) rows)
        ≡ workspace_of h (delete (owned id workspace) rows)
  unfolding workspace_of find update delete
  workspace_of-other h [] other = refl
  workspace_of-other h (t ∷ rows) other = ground (arith, workspace_of-other h rows other)

  -- For the new hash, the rotated row is found.
  workspace_of-new :
      (rows : List ApiToken)
      → any_row (owned id workspace) rows ≡ true
      → any_row (taken_by_other id workspace hashed) rows ≡ false
      → workspace_of hashed (update (owned id workspace) (rotated hashed prefix) rows)
        ≡ some workspace
  unfolding workspace_of find update any_row taken_by_other owned
  workspace_of-new [] there free = absurd (ground arith)
  workspace_of-new (t ∷ rows) there free =
      ground (arith, text_eq_refl hashed, workspace_of-new rows)

module _ (hash : Text → Text) where
  authenticate_token-workspace_of :
      (authorization : Text) (now : ℕ) (ts : Tokens) {raw : Text}
      → raw_of authorization ≡ some raw
      → (authenticate_token hash authorization now ts).1 ≡ workspace_of (hash raw) ts.rows
  unfolding authenticate_token workspace_of
  authenticate_token-workspace_of authorization now ts {raw} e =
      elim (Option-cases (find (has_hash (hash raw)) ts.rows)) [
        | inl f ↦ rw (e, f, authenticate_token, workspace_of)
        | inr (t, f) ↦ rw (e, f, authenticate_token, workspace_of)
      ]

  -- What a rotation that succeeds did.
  rotate_api_token-rotated :
      (workspace id : ℕ) (hex raw : Text) (ts ts' : Tokens)
      → rotate_api_token hash workspace (some id) (some hex) ts ≡ (ts', reply 200 (minted id raw))
      → (any_row (owned id workspace) ts.rows ≡ true)
        × (any_row (taken_by_other id workspace (hash raw)) ts.rows ≡ false)
        × (ts'.rows ≡ update (owned id workspace) (rotated (hash raw) (take 8 raw)) ts.rows)
  unfolding rotate_api_token swap_token new_api_token error
  rotate_api_token-rotated workspace id hex raw ts ts' e =
      let minted_raw = codes "oak_" ++ hex in
      elim (Bool-cases (any_row (owned id workspace) ts.rows)) [
        | inr f ↦ absurd (ground arith)
        | inl f ↦
            elim (Bool-cases (any_row (taken_by_other id workspace (hash minted_raw)) ts.rows)) [
              | inl g ↦ absurd (ground arith)
              | inr g ↦
                  let same : minted_raw ≡ raw = ground arith in rw (← same) (f, g, ground arith)
            ]
      ]

  -- After a rotation that succeeds, the new raw token authenticates the workspace of the rotated
  -- token, and any other is answered as if that token had been deleted.
  pub rotate_api_token-swaps :
      (workspace id : ℕ) (hex raw authorization presented : Text) (now : ℕ) (ts ts' : Tokens)
      → rotate_api_token hash workspace (some id) (some hex) ts ≡ (ts', reply 200 (minted id raw))
      → raw_of authorization ≡ some presented
      → (authenticate_token hash authorization now ts').1 ≡ (
          if text_eq (hash raw) (hash presented)
          then some workspace
          else (authenticate_token hash authorization now
              (delete_api_token workspace (some id) ts).0).1)
  unfolding delete_api_token
  rotate_api_token-swaps workspace id hex raw authorization presented now ts ts' e shown =
      let (there, free, rows) = rotate_api_token-rotated workspace id hex raw ts ts' e in
      rw
        (
          authenticate_token-workspace_of authorization now ts' shown,
          authenticate_token-workspace_of authorization now
              (delete_api_token workspace (some id) ts).0 shown,
        )
        (elim (Bool-cases (text_eq (hash raw) (hash presented))) [
          | inl t ↦
              rw (rows, t, ← (text_eq_iff _ _).0 t)
                (workspace_of-new id workspace (hash raw) (take 8 raw) ts.rows there free)
          | inr t ↦
              rw (rows, t, there)
                (workspace_of-other id workspace (hash raw) (take 8 raw) (hash presented) ts.rows t)
        ])
