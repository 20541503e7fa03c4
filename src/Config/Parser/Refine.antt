-- ===== src/Config/Parser/Refine.antt =====
-- `servo_config_parse` on the tokens of a document comes to what the document describes.
use external_servo.Prelude.{
  All, ℕ, ◌<◌, ◌≡◌, refl, ◌∙◌, Bool, true, false, Option, none, some, List, [], ◌∷◌, length,
  get_elem?,
}
use external_servo.Double.{Double}
use external_servo.Config.Parser.{servo_config_parser, servo_config_parse}
use external_servo.Config.State.{stream_end, block_end, BlockConfig, cleared, Globals, first_data}
use external_servo.Config.Parser.Document.{
  logging, servo, device, unknown, IsProper, Document, entry_tokens, block_tokens, tokens, store,
  described,
}
use external_servo.Config.Parser.Feed.{feed, feed_loop, between}
use external_servo.Config.Parser.Block.{feed_unknown, feed_skipped, fill_all-cleared, feed_known}

module _ {ℓ} {D : Type ℓ} ⦃d : Double D⦄ where
  feed_document :
      (strtod : List ℕ → D) (doc : Document) (key val : Option (List ℕ)) (b : BlockConfig D)
      (x y : Bool) (g : Globals D)
      → All (λ block. IsProper block.0) doc
      → feed strtod (block_tokens doc (block_end ∷ stream_end ∷ [])) (between key val b x y g)
        ≡ described strtod doc g
  unfolding servo_config_parser
  feed_document strtod [] key val b x y g a = refl
  feed_document strtod ((unknown name, entries) ∷ doc) key val b x y g (proper, a) =
      let ts = block_tokens doc (block_end ∷ stream_end ∷ []) in
      feed_unknown strtod name (entry_tokens entries (block_end ∷ ts)) key val b x y g proper
      ∙ (rw (described, fill_all-cleared strtod entries)
          (feed_skipped strtod entries ts (some name) val b x y g (described strtod doc g)
            (λ key'. feed_document strtod doc key' val b x y g a)))
  feed_document strtod ((logging, entries) ∷ doc) key val b x y g (proper, a) =
      feed_known strtod logging entries (block_tokens doc (block_end ∷ stream_end ∷ [])) key val b x
        y g (λ b'. described strtod doc (store b' g)) tt
        (λ key' val' b' x' y'. feed_document strtod doc key' val' b' x' y' (store b' g) a)
  feed_document strtod ((servo, entries) ∷ doc) key val b x y g (proper, a) =
      feed_known strtod servo entries (block_tokens doc (block_end ∷ stream_end ∷ [])) key val b x y
        g (λ b'. described strtod doc (store b' g)) tt
        (λ key' val' b' x' y'. feed_document strtod doc key' val' b' x' y' (store b' g) a)
  feed_document strtod ((device, entries) ∷ doc) key val b x y g (proper, a) =
      feed_known strtod device entries (block_tokens doc (block_end ∷ stream_end ∷ [])) key val b x
        y g (λ b'. described strtod doc (store b' g)) tt
        (λ key' val' b' x' y'. feed_document strtod doc key' val' b' x' y' (store b' g) a)

  -- Given more fuel than it has tokens, the parser returns on the tokens of a document of blocks
  -- in any order and number: it configures for each logger, servo and device block in turn what
  -- the entries make of a zeroed structure, passes over the blocks of other names, and with the
  -- first entry that is refused it returns -1, with the blocks before it configured.
  pub servo_config_parse-described :
      (strtod : List ℕ → D) (doc : Document) (fuel : ℕ) (g : Globals D)
      → All (λ block. IsProper block.0) doc
      → length (tokens doc) < fuel
      → servo_config_parse strtod true true (get_elem? (tokens doc)) fuel g ≡ described strtod doc g
  unfolding servo_config_parse servo_config_parser
  servo_config_parse-described strtod doc fuel g a h =
      feed_loop strtod [] (tokens doc) fuel 0 (first_data g) refl h
      ∙ feed_document strtod doc none none cleared false false g a
