-- ===== src/Wire/Bounds.antt =====
-- Challenges from any bytes after a header: how many items are read, and their numbers.
use dhtdynamic_audit_strateg.Base.{ℕ, ◌≡◌, List, length}
use dhtdynamic_audit_strateg.CoreLib.Crypto.{Sm9}
use dhtdynamic_audit_strateg.CoreLib.Archive.{Archive}
use dhtdynamic_audit_strateg.Messages.{ChallengeItem, DhtChallenges}
use dhtdynamic_audit_strateg.Wire.RoundTrip.{AllItemsWords}

module _ ⦃sm9 : Sm9⦄ ⦃archive : Archive⦄ where
  open sm9 use {Scalar, G2}
  open archive use {
    put_word, put_scalar, put_g2, take_word, take_scalar, take_word-bounds, take-put_word,
    take-put_scalar, take-put_g2,
  }

  abbrev AreItems : ℕ → List ChallengeItem × List ℕ → Type 0
  AreItems count r = AllItemsWords r.0 × (length r.0 ≡ count)

  -- What is read after a header: its point, scalar and number of blocks, and as many items as it
  -- counts, all with 64-bit numbers.
  pub record IsHeaded (point : G2) (scalar : Scalar) (blocks count : ℕ) (c : DhtChallenges)
      : Type 0 where
    pub blind_point : c.blind_point ≡ point
    pub blind_scalar : c.blind_scalar ≡ scalar
    pub block_count : c.block_count ≡ blocks
    pub counted : length c.items ≡ count
    pub words : AllItemsWords c.items
