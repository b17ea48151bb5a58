-- ===== src/Board/Environment/Exists.antt =====
-- Which variables exist after the shared variables were changed.
use fit_fred.Common.{
  ◌≡◌, refl, ap, subst, Fallible, ok, err, ok-injective, Fallible-cases, Bytes, [], ◌∷◌, ◌++◌,
  Option-cases, List, if◌then◌else◌, true, bytes_eq, bytes_eq_refl, Bool-cases, bytes_eq→, ◌⊎◌, inl,
  inr,
}
use fit_fred.Platform.{Platform}
use fit_fred.Board.Environment.{
  Setting, MissingSetting, missing_setting, find_setting, setting_exists, emplace_setting,
  assign_value, values_of, update_variable,
}

module _ {Double : Type 0} where
  -- A name is found in no list, or at the first setting that has it.
  exists_step :
      (name : Bytes) (s : Setting Double) (ss : List (Setting Double))
      → setting_exists name (s ∷ ss)
        ≡ (if bytes_eq s.name name then true else setting_exists name ss)
  unfolding setting_exists find_setting
  exists_step name s ss = elim (Bool-cases (bytes_eq s.name name)) [
    | inl e ↦ rw (setting_exists, find_setting, e) refl
    | inr e ↦ rw (setting_exists, find_setting, e) refl
  ]

  exists-assign :
      (name key : Bytes) (value : Double) (ss : List (Setting Double))
      → setting_exists name (assign_value key value ss) ≡ setting_exists name ss
  unfolding assign_value
  exists-assign name key value [] = refl
  exists-assign name key value (s ∷ ss) = elim (Bool-cases (bytes_eq s.name key)) [
    | inl e ↦
        rw
          (assign_value, e, exists_step name (record s { value = value }) ss, exists_step name s ss)
          refl
    | inr e ↦
        rw
          (
            assign_value,
            e,
            exists_step name s (assign_value key value ss),
            exists_step name s ss,
            exists-assign name key value ss,
          )
          refl
  ]

  exists-append :
      (name : Bytes) (s : Setting Double) (ss : List (Setting Double))
      → setting_exists name (ss ++ (s ∷ []))
        ≡ (if setting_exists name ss then true else bytes_eq s.name name)
  unfolding setting_exists find_setting
  exists-append name s [] = elim (Bool-cases (bytes_eq s.name name)) [
    | inl e ↦ rw (exists_step name s [], e) refl
    | inr e ↦ rw (exists_step name s [], e) refl
  ]
  exists-append name s (t ∷ ss) = elim (Bool-cases (bytes_eq t.name name)) [
    | inl e ↦ rw (exists_step name t (ss ++ (s ∷ [])), exists_step name t ss, e) refl
    | inr e ↦
        rw (exists_step name t (ss ++ (s ∷ [])), exists_step name t ss, e) (exists-append name s ss)
  ]

  -- Emplacing a setting keeps those that exist, and makes its own exist.
  pub emplace_setting-exists :
      (name : Bytes) (s : Setting Double) (ss : List (Setting Double))
      → setting_exists name ss ≡ true
      → setting_exists name (emplace_setting s ss) ≡ true
  unfolding emplace_setting
  emplace_setting-exists name s ss h = elim (Option-cases (find_setting s.name ss)) [
    | inl e ↦ rw (emplace_setting, e, exists-append name s ss, h) refl
    | inr (old, e) ↦ rw (emplace_setting, e) h
  ]

  pub emplace_setting-new :
      (s : Setting Double) (ss : List (Setting Double))
      → setting_exists s.name (emplace_setting s ss) ≡ true
  unfolding emplace_setting setting_exists
  emplace_setting-new s ss = elim (Option-cases (find_setting s.name ss)) [
    | inl e ↦ elim (Bool-cases (setting_exists s.name ss)) [
      | inl q ↦ rw (emplace_setting, e, exists-append s.name s ss, q) refl
      | inr q ↦ rw (emplace_setting, e, exists-append s.name s ss, q) (bytes_eq_refl s.name)
    ]
    | inr (old, e) ↦ rw (emplace_setting, e, setting_exists, e) refl
  ]

  -- Emplacing a setting makes nothing exist but its name.
  pub emplace_setting-only :
      (name : Bytes) (s : Setting Double) (ss : List (Setting Double))
      → setting_exists name (emplace_setting s ss) ≡ true
      → (setting_exists name ss ≡ true) ⊎ (s.name ≡ name)
  unfolding emplace_setting
  emplace_setting-only name s ss h = elim (Option-cases (find_setting s.name ss)) [
    | inr (old, e) ↦ inl (rw (emplace_setting, e) at h)
    | inl e ↦ elim (Bool-cases (setting_exists name ss)) [
      | inl known ↦ inl known
      | inr new ↦
          inr (bytes_eq→ s.name name (rw (emplace_setting, e, exists-append name s ss, new) at h))
    ]
  ]

-- Updating a variable changes no name.
pub update_variable-exists :
    (platform : Platform) (key name : Bytes) (ss next : List (Setting platform.Double))
    (value : platform.Double)
    → update_variable platform key ss ≡ ok (next, value)
    → setting_exists name next ≡ setting_exists name ss
unfolding update_variable
update_variable-exists platform key name ss next value h =
    elim (Option-cases (find_setting key ss)) [
      | inl e ↦
          let broken : ◌≡◌
              {A = Fallible MissingSetting (List (Setting platform.Double) × platform.Double)}
              (err (missing_setting key)) (ok (next, value)) =
            rw (update_variable, e) at h in
          cc
      | inr (s, e) ↦ elim (Fallible-cases (values_of s.equation.variables ss)) [
        | inl (values, q) ↦
            let fresh = platform.calculate s.equation.equation s.equation.variables values in
            let same : (assign_value key fresh ss, fresh) ≡ (next, value) =
              ok-injective {E = MissingSetting} (rw (update_variable, e, q) at h) in
            subst (λ r. setting_exists name r ≡ setting_exists name ss) (ap (λ r. r.0) same)
              (exists-assign name key fresh ss)
        | inr (f, q) ↦
            let broken : ◌≡◌
                {A = Fallible MissingSetting (List (Setting platform.Double) × platform.Double)}
                (err f) (ok (next, value)) =
              rw (update_variable, e, q) at h in
            cc
      ]
    ]
