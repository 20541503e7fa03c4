-- ===== src/Config/Fields/Range.antt =====
-- What the check of a value decides: `value_range_check` refuses a number that is below the minimum
-- and above the maximum, and a name that has the number 2 ^ 32 - 1.
use external_servo.Prelude.{
  ℕ, ◌-◌, ◌^◌, ◌≤◌, ◌<◌, ◌≡◌, refl, ◌∙◌, true, false, none, some, List, [], ◌∷◌, All, Bool-cases,
  Option-cases, inl, inr, arith,
}
use mathlib.Core.Path.{subst}
use external_servo.Prelude.Int.{ℤ, pos, negsuc, pos_part, neg_part}
use external_servo.Double.{Double, IsExact}
use external_servo.Config.Types.{LoggerConfig, ServoConfig, DeviceConfig}
use external_servo.Config.Tables.{
  same_text, KeyVal, VarType, integer, string, enumeration, double, FieldInfo, logger_tbl,
  servo_config_tbl, device_tbl,
}
use external_servo.Config.Fields.{
  atoi, named_value, get_key_val, get_field_info, value_of, value_range_check, outside,
  assign_logger, assign_servo, assign_device, update, update_logger_config, update_servo_config,
  update_device_config,
}

-- a number that an `int` can hold and that is not negative
abbrev pub IsSmall : KeyVal → Type 0
IsSmall e = (pos_part e.val < 2 ^ 31) × (neg_part e.val ≡ 0)

get_key_val_bound :
    (key : List ℕ) (tbl : List KeyVal)
    → All IsSmall tbl
    → (pos_part (get_key_val key tbl) < 2 ^ 31) × (neg_part (get_key_val key tbl) ≤ 1)
unfolding get_key_val
get_key_val_bound key [] a = (omega arith, omega arith)
get_key_val_bound key (e ∷ tbl) ((p, n), a) = elim (Bool-cases (same_text key e.key)) [
  | inl found ↦ rw found (p, omega arith)
  | inr other ↦ rw other (get_key_val_bound key tbl a)
]

module _ {ℓ} {D : Type ℓ} ⦃d : Double D⦄ where
  -- the bounds of a field are in order, and its names are small
  abbrev pub IsFine : {I : Type 0} → FieldInfo D I → Type 0
  IsFine field = (d.lt field.max field.min ≡ false) × All IsSmall field.enum_list

  not_outside : IsExact D → (lo hi v : D) → d.lt hi lo ≡ false → outside lo hi v ≡ false
  not_outside laws lo hi v h = elim (Bool-cases (d.lt v lo)) [
    | inr over ↦ rw over
    | inl below ↦ elim (Bool-cases (d.lt hi v)) [
      | inr under ↦ rw (below, under)
      | inl above ↦ absurd (
          let both : d.lt hi lo ≡ true = laws.lt_trans hi v lo above below in
          grind (arith, both, h))
    ]
  ]

  named_value-accepts :
      IsExact D
      → (list : List KeyVal) (val : List ℕ) → All IsSmall list
      → (named_value {D = D} list val).0 ≡ pos 0
  named_value-accepts laws [] val a = refl
  named_value-accepts laws (e ∷ list) val a =
      let (small, above) = get_key_val_bound val (e ∷ list) a in
      let differ : d.same (d.of_int (get_key_val val (e ∷ list))) (d.of_int (pos (2 ^ 32 - 1)))
          ≡ false =
        laws.same-of_int (get_key_val val (e ∷ list)) (pos (2 ^ 32 - 1)) (omega arith) (omega arith)
        ∙ ground arith in
      rw differ

  value_of-accepts :
      IsExact D
      → (strtod : List ℕ → D) {I : Type 0} (field : FieldInfo D I) (type : VarType) (val : List ℕ)
      → IsFine field
      → (value_of strtod field type val).0 ≡ pos 0
  value_of-accepts laws strtod field integer val (order, names) =
      rw (not_outside laws field.min field.max (d.of_int (atoi val)) order)
  value_of-accepts laws strtod field double val (order, names) =
      rw (not_outside laws field.min field.max (strtod val) order)
  value_of-accepts laws strtod field string val (order, names) = refl
  value_of-accepts laws strtod field enumeration val (order, names) =
      named_value-accepts laws field.enum_list val names

  pub value_range_check-accepts :
      IsExact D
      → (strtod : List ℕ → D) {I : Type 0} (field : FieldInfo D I) (val : List ℕ) → IsFine field
      → (value_range_check strtod field val).0 ≡ pos 0
  unfolding value_range_check
  value_range_check-accepts laws strtod field val fine =
      value_of-accepts laws strtod field field.var_type val fine

  get_field_info-IsFine :
      {I : Type 0} (key : List ℕ) (tbl : List (FieldInfo D I)) (field : FieldInfo D I)
      → All IsFine tbl
      → get_field_info key tbl ≡ some field
      → IsFine field
  unfolding get_field_info
  get_field_info-IsFine key [] field a e = absurd (grind arith)
  get_field_info-IsFine key (f ∷ tbl) field (fine, a) e =
      elim (Bool-cases (same_text key f.field_name)) [
        | inl found ↦
            let here : f ≡ field = grind (arith, (rw found at e)) in subst IsFine here fine
        | inr other ↦ get_field_info-IsFine key tbl field a (rw other at e)
      ]

  -- what an update does, without the check
  abbrev pub unchecked {κ} :
      (strtod : List ℕ → D) {I : Type 0} {C : Type κ}
      → List (FieldInfo D I)
      → (I → D → List ℕ → C → C)
      → C
      → List ℕ
      → List ℕ
      → ℤ × C
  unchecked strtod tbl assign config key val = elim (get_field_info key tbl) [
    | none ↦ (negsuc 0, config)
    | some field ↦ (pos 0, assign field.idx (value_range_check strtod field val).1 val config)
  ]

  pub update-unchecked {κ} :
      IsExact D
      → (strtod : List ℕ → D) {I : Type 0} {C : Type κ} (tbl : List (FieldInfo D I))
        (assign : I → D → List ℕ → C → C) (config : C) (key val : List ℕ)
      → All IsFine tbl
      → update strtod tbl assign config key val ≡ unchecked strtod tbl assign config key val
  update-unchecked laws strtod tbl assign config key val a =
      elim (Option-cases (get_field_info key tbl)) [
        | inl missing ↦ rw (update, unchecked, missing)
        | inr (field, found) ↦ rw (
          update,
          unchecked,
          found,
          value_range_check-accepts laws strtod field val
              (get_field_info-IsFine key tbl field a found),
        )
      ]

  -- With the bounds of every field in order, each of the three updates fails exactly for a key
  -- that its table does not have, and then leaves the configuration; any value of a known key is
  -- assigned, in or out of the bounds of its field.
  pub update_config-unchecked :
      IsExact D
      → (strtod : List ℕ → D) (key val : List ℕ) (logger : LoggerConfig) (servo : ServoConfig D)
        (device : DeviceConfig)
      → All IsFine (logger_tbl {D = D})
      → All IsFine (servo_config_tbl {D = D})
      → All IsFine (device_tbl {D = D})
      → (update_logger_config strtod logger key val
          ≡ unchecked strtod logger_tbl assign_logger logger key val)
        × (update_servo_config strtod servo key val
            ≡ unchecked strtod servo_config_tbl assign_servo servo key val)
        × (update_device_config strtod device key val
            ≡ unchecked strtod device_tbl assign_device device key val)
  unfolding update_logger_config update_servo_config update_device_config
  update_config-unchecked laws strtod key val logger servo device l s v = (
    update-unchecked laws strtod logger_tbl assign_logger logger key val l,
    update-unchecked laws strtod servo_config_tbl assign_servo servo key val s,
    update-unchecked laws strtod device_tbl assign_device device key val v,
  )
