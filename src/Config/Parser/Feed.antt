-- ===== src/Config/Parser/Feed.antt =====
-- The parser's loop on a list of tokens, and its data inside a block and between blocks.
use external_servo.Prelude.{
  ℕ, zero, suc, ◌+◌, ◌<◌, ◌≡◌, refl, ap, Bool, true, false, Option, none, some, List, [], ◌∷◌, ◌++◌,
  length, get_elem?, get_elem?-at, length-append, Option-cases, arith,
}
use mathlib.Core.Logic.{inl, inr}
use mathlib.Core.List.{append_assoc}
use mathlib.Core.Path.{subst}
use external_servo.Prelude.Int.{negsuc, eqb_ℤ}
use external_servo.Double.{Double}
use external_servo.Config.Parser.{is_stop, servo_config_parser, parse_loop}
use external_servo.Config.State.{
  Token, ParserState, start_block, start_servo_block, start_device_block, start_logger_block,
  BlockConfig, Globals, ParserData, Outcome, faulted, returned,
}
use external_servo.Config.Parser.Document.{BlockKind, logging, servo, device, unknown, name_of}

abbrev pub state_of : BlockKind → ParserState
state_of logging = start_logger_block
state_of servo = start_servo_block
state_of device = start_device_block
state_of (unknown name) = start_block

-- one of the three kinds
abbrev pub IsKnown : BlockKind → Type 0
IsKnown (unknown name) = ⊥
IsKnown _ = Unit

get_elem?_end :
    (before : List Token) (n : ℕ) → n ≡ length before → get_elem? (before ++ []) n ≡ none
get_elem?_end [] n e = refl
get_elem?_end (t ∷ before) zero e = absurd (omega arith)
get_elem?_end (t ∷ before) (suc n) e = get_elem?_end before n (omega arith)

module _ {ℓ} {D : Type ℓ} ⦃d : Double D⦄ where
  -- the loop over a list of tokens
  abbrev pub feed : (strtod : List ℕ → D) → List Token → ParserData D → Outcome D
  feed strtod [] p = returned (negsuc 0) p.globals
  feed strtod (t ∷ ts) p = elim (servo_config_parser strtod p t) [
    | none ↦ faulted
    | some (rv, q) ↦ elim (eqb_ℤ rv (negsuc 0)) [
      | true ↦ returned (negsuc 0) q.globals
      | false ↦ elim (is_stop q.state) [ true ↦ returned rv q.globals | false ↦ feed strtod ts q ]
    ]
  ]

  pub feed_loop :
      (strtod : List ℕ → D) (before ts : List Token) (fuel n : ℕ) (p : ParserData D)
      → n ≡ length before
      → length ts < fuel
      → parse_loop strtod (get_elem? (before ++ ts)) fuel n p ≡ feed strtod ts p
  unfolding parse_loop
  feed_loop strtod before ts zero n p e h = absurd (omega arith)
  feed_loop strtod before [] (suc fuel) n p e h = rw (parse_loop, get_elem?_end before n e)
  feed_loop strtod before (t ∷ ts) (suc fuel) n p e h =
      elim (Option-cases (servo_config_parser strtod p t)) [
        | inl fault ↦ rw (parse_loop, feed, get_elem?-at before t ts n e, fault)
        | inr (r, ok) ↦
            let (rv, q) = r in
            let next : parse_loop strtod (get_elem? (before ++ (t ∷ ts))) fuel (n + 1) q
                ≡ feed strtod ts q =
              subst (λ z. parse_loop strtod (get_elem? z) fuel (n + 1) q ≡ feed strtod ts q)
                (append_assoc before (t ∷ []) ts)
                (feed_loop strtod (before ++ (t ∷ [])) ts fuel (n + 1) q
                  (omega (arith, length-append before (t ∷ []))) (omega arith)) in
            rw (parse_loop, feed, get_elem?-at before t ts n e, ok)
              (ap
                (λ z. elim (eqb_ℤ rv (negsuc 0)) [
                  | true ↦ returned (negsuc 0) q.globals
                  | false ↦ elim (is_stop q.state) [ true ↦ returned rv q.globals | false ↦ z ]
                ])
                next)
      ]

  -- inside a block
  abbrev pub inside :
      BlockKind → BlockConfig D → List ℕ → Option (List ℕ) → Bool → Bool → Globals D → ParserData D
  inside kind b key val in_key in_value g = record {
    state = state_of kind;
    block_id = 1;
    block_name = some (name_of kind) ∷ none ∷ [];
    key = some key;
    val = val;
    config = b;
    block_key = false;
    in_key = in_key;
    in_value = in_value;
    globals = g;
  }

  -- between blocks
  abbrev pub between :
      Option (List ℕ) → Option (List ℕ) → BlockConfig D → Bool → Bool → Globals D → ParserData D
  between key val b in_key in_value g = record {
    state = start_block;
    block_id = 0;
    block_name = none ∷ none ∷ [];
    key = key;
    val = val;
    config = b;
    block_key = false;
    in_key = in_key;
    in_value = in_value;
    globals = g;
  }
