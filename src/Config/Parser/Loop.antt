-- ===== src/Config/Parser/Loop.antt =====
-- Whether the loop of `servo_config_parse` ends.
use external_servo.Prelude.{
  ℕ, zero, suc, ◌+◌, ◌<◌, ◌≡◌, ◌≢◌, refl, ◌∙◌, Bool, true, false, Option, none, some, List,
  Option-cases, inl, inr, arith,
}
use native.Mathlib.Numerals.{unary_clauses}
use external_servo.Prelude.Int.{ℤ, negsuc, eqb_ℤ}
use external_servo.Double.{Double}
use external_servo.Config.Parser.{is_stop, servo_config_parser, parse_loop, servo_config_parse}
use external_servo.Config.State.{
  Token, stream_end, key_token, value_token, block_mapping_start, block_end, scalar, other, Globals,
  ParserData, Outcome, running, faulted, returned, first_data,
}

-- the loop is over
pub data Ended {ℓ} {D : Type ℓ} : Outcome D → Type ℓ where
  by_fault : Ended faulted
  by_return : {rv : ℤ} {g : Globals D} → Ended (returned rv g)

module _ {ℓ} {D : Type ℓ} ⦃d : Double D⦄ where
  Ended-elim :
      (b : Bool) {o o' : Outcome D} → Ended o → Ended o' → Ended (elim b [ true ↦ o | false ↦ o' ])
  Ended-elim true e e' = e
  Ended-elim false e e' = e'

  -- what is not the start of a mapping leaves the parser as it is, before the first block
  unstarted_step :
      (t : Token) (strtod : List ℕ → D) (scan : ℕ → Option Token) (fuel n : ℕ) (g : Globals D)
      → t ≢ block_mapping_start
      → scan n ≡ some t
      → parse_loop strtod scan (suc fuel) n (first_data g)
        ≡ parse_loop strtod scan fuel (n + 1) (first_data g)
  unfolding parse_loop servo_config_parser
  unstarted_step block_mapping_start strtod scan fuel n g h e = absurd (h refl)
  unstarted_step stream_end strtod scan fuel n g h e = rw (parse_loop, e)
  unstarted_step key_token strtod scan fuel n g h e = rw (parse_loop, e)
  unstarted_step value_token strtod scan fuel n g h e = rw (parse_loop, e)
  unstarted_step block_end strtod scan fuel n g h e = rw (parse_loop, e)
  unstarted_step other strtod scan fuel n g h e = rw (parse_loop, e)
  unstarted_step (scalar s) strtod scan fuel n g h e = rw (parse_loop, e)

  unstarted_loop :
      (strtod : List ℕ → D) (scan : ℕ → Option Token) (fuel n : ℕ) (g : Globals D)
      → ((n : ℕ) → (t : Token) × (scan n ≡ some t) × (t ≢ block_mapping_start))
      → parse_loop strtod scan fuel n (first_data g) ≡ running
  unfolding parse_loop
  unstarted_loop strtod scan zero n g h = refl
  unstarted_loop strtod scan (suc fuel) n g h =
      let (t, found, not_start) = h n in
      unstarted_step t strtod scan fuel n g not_start found
      ∙ unstarted_loop strtod scan fuel (n + 1) g h

  -- From any state the loop of the parser ends, at the latest at the token at which the scanner
  -- fails, given fuel up to it.
  pub parse_loop-Ended :
      (strtod : List ℕ → D) (scan : ℕ → Option Token) (fuel n m : ℕ) (p : ParserData D)
      → m < fuel
      → scan (n + m) ≡ none
      → Ended (parse_loop strtod scan fuel n p)
  unfolding parse_loop
  parse_loop-Ended strtod scan zero n m p h e = absurd (omega arith)
  parse_loop-Ended strtod scan (suc fuel) n zero p h e =
      let failed : scan n ≡ none = simp unary_clauses at e in rw (parse_loop, failed) by_return
  parse_loop-Ended strtod scan (suc fuel) n (suc m) p h e = elim (Option-cases (scan n)) [
    | inl failed ↦ rw (parse_loop, failed) by_return
    | inr (t, found) ↦ elim (Option-cases (servo_config_parser strtod p t)) [
      | inl fault ↦ rw (parse_loop, found, fault) by_fault
      | inr (r, ok) ↦
          rw (parse_loop, found, ok)
            (Ended-elim (eqb_ℤ r.0 (negsuc 0)) by_return (
              Ended-elim (is_stop r.1.state) by_return (
                parse_loop-Ended strtod scan fuel (n + 1) m r.1 (omega arith)
                  (let same : n + 1 + m ≡ n + suc m = omega arith in rw same e))))
    ]
  ]

  -- On tokens of which none starts a block mapping, as those of an empty file, the parser never
  -- returns, whatever the fuel.
  pub servo_config_parse-running :
      (strtod : List ℕ → D) (scan : ℕ → Option Token) (fuel : ℕ) (g : Globals D)
      → ((n : ℕ) → (t : Token) × (scan n ≡ some t) × (t ≢ block_mapping_start))
      → servo_config_parse strtod true true scan fuel g ≡ running
  unfolding servo_config_parse
  servo_config_parse-running strtod scan fuel g h = unstarted_loop strtod scan fuel 0 g h
