-- ===== src/Command/Flags/Merged.antt =====
-- What the flags are after Set.
use mathlib.Core.List.{append-eq-nil_iff}
use signoz_operator.Prelude.{
  String, ◌≡◌, refl, not, Bool, true, false, Option, none, some, List, [], ◌∷◌, if◌then◌else◌,
}
use signoz_operator.Errors.{Error}
use signoz_operator.Command.Flags.{Flag, Environment, set_value, from_environment, visit, set}

abbrev or_default : Option String → String → String
or_default none value = value
or_default (some e) value = e

-- The value by rank: that of the command line, then that of the environment, then the default.
abbrev pub ranked : Flag → Option String → String
ranked f e = if f.changed then f.value else or_default e f.value

module _ (env : Environment) where
  -- The flags of the second list are those of the first with their value by rank.
  abbrev pub AllRanked : List Flag → List Flag → Type 0
  AllRanked [] [] = Unit {0}
  AllRanked (f ∷ fs) (g ∷ gs) =
      ((g.name ≡ f.name) × (g.value ≡ ranked f (env.value_of f.name))) × AllRanked fs gs
  AllRanked fs gs = ⊥

  IsRanked : Flag → Flag → Option String → Type 0
  IsRanked f g e = (g.name ≡ f.name) × (g.value ≡ ranked f e)

  set_value-clean :
      (f : Flag) (value : String) (o : Option Error)
      → (set_value env f value o).1 ≡ []
      → ((set_value env f value o).0.name ≡ f.name) × ((set_value env f value o).0.value ≡ value)
  unfolding set_value
  set_value-clean f value none clean = (refl, refl)
  set_value-clean f value (some e) clean = cc clean

  from_environment-clean :
      (f : Flag) (e : Option String)
      → (from_environment env f e).1 ≡ []
      → ((from_environment env f e).0.name ≡ f.name)
        × ((from_environment env f e).0.value ≡ or_default e f.value)
  unfolding from_environment
  from_environment-clean f none clean = (refl, refl)
  from_environment-clean f (some v) clean = set_value-clean f v _ clean

  by_rank :
      (f : Flag) (e : Option String) (changed : Bool)
      → (if not changed then from_environment env f e else (f, [])).1 ≡ []
      → ((if not changed then from_environment env f e else (f, [])).0.name ≡ f.name)
        × ((if not changed then from_environment env f e else (f, [])).0.value
            ≡ (if changed then f.value else or_default e f.value))
  by_rank f e true clean = (refl, refl)
  by_rank f e false clean = from_environment-clean f e clean

  visit-IsRanked :
      (f : Flag) → (visit env f).1 ≡ [] → IsRanked f (visit env f).0 (env.value_of f.name)
  unfolding visit IsRanked
  visit-IsRanked f clean = by_rank f (env.value_of f.name) f.changed clean

  -- After Set without an error, every flag has the value of the command line if it was given there,
  -- or else that of its variable if this is set, or else its default.
  pub set-AllRanked : (fs : List Flag) → (set env fs).1 ≡ [] → AllRanked fs (set env fs).0
  unfolding set IsRanked
  set-AllRanked [] clean = tt
  set-AllRanked (f ∷ fs) clean =
      let (first, rest) = append-eq-nil_iff.0 clean in
      (visit-IsRanked f first, set-AllRanked fs rest)
