-- ===== src/Steps/Registry/Types.antt =====
-- The types that the registry lists are those that it has an executor for.
use oarlock.Prelude.{
  ◌≡◌, refl, sym, ap, ◌∙◌, inl, inr, Text, text_eq, Bool, true, List, [], ◌∷◌, ◌++◌, arith,
  Bool-cases, if◌then◌else◌,
}
use oarlock.Prelude.Tables.{any_row}
use oarlock.Steps.Registry.{TypeInfo, Registry, new_registry, register, lookup, get, has, types}

abbrev pub has_type : Text → TypeInfo → Bool
has_type type info = text_eq info.type type

any_row-last :
    (p : TypeInfo → Bool) (xs : List TypeInfo) (x : TypeInfo)
    → any_row p (xs ++ x ∷ []) ≡ (if p x then true else any_row p xs)
unfolding any_row
any_row-last p [] x = refl
any_row-last p (y ∷ ys) x = ground (arith, any_row-last p ys x)

module _ {E : Type 0} where
  -- The registrations, of which the latest stands first.
  abbrev pub registered : List (TypeInfo × E) → Registry E
  registered [] = new_registry
  registered ((info, e) ∷ rs) = register info e (registered rs)

  has-cons :
      (r : Registry E) (info : TypeInfo) (e : E) (type : Text)
      → has (register info e r) type ≡ (if text_eq info.type type then true else has r type)
  unfolding has get lookup register
  has-cons r info e type = elim (Bool-cases (text_eq info.type type)) [
    | inl q ↦ rw (q, has, get, lookup) refl
    | inr q ↦ rw (q, has, get, lookup) refl
  ]

  -- After any registrations, the registry has an executor of a type exactly where one of the types that
  -- it lists is that type.
  pub has-types :
      (rs : List (TypeInfo × E)) (type : Text)
      → has (registered rs) type ≡ any_row (has_type type) (types (registered rs))
  unfolding any_row register has get lookup
  has-types [] type = refl
  has-types ((info, e) ∷ rs) type =
      has-cons (registered rs) info e type
      ∙ ap (λ b. if text_eq info.type type then true else b) (has-types rs type)
      ∙ sym (any_row-last (has_type type) (registered rs).infos info)
