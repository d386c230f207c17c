-- ===== src/CoreLib/Archive.antt =====
-- The binary archives of cereal, and the bytes of the SM9BLS types. Each `put` gives the bytes that are
-- written, and each `take` reads from the front, or gives `none` where cereal throws.
use dhtdynamic_audit_strateg.Base.{
  ℕ, ◌<◌, ◌≡◌, Option, some, List, [], ◌∷◌, ◌++◌, String, length, word_mod,
}
use dhtdynamic_audit_strateg.CoreLib.Crypto.{Sm9}
use dhtdynamic_audit_strateg.Messages.{MaintenanceOpType}

-- `take` reads `a` off what was written, and leaves what follows.
abbrev pub Reads {ℓ} : {A : Type ℓ} → (List ℕ → Option (A × List ℕ)) → List ℕ → A → Type ℓ
Reads take written a = (rest : List ℕ) → take (written ++ rest) ≡ some (a, rest)

abbrev pub AllBelow : ℕ → List ℕ → Type 0
AllBelow n [] = Unit
AllBelow n (x ∷ xs) = (x < n) × AllBelow n xs

pub record Archive ⦃sm9 : Sm9⦄ : Type 0 where
  -- `std::uint8_t`; `std::uint64_t` and `std::size_t`; `std::vector`s of these; strings.
  pub put_byte : ℕ → List ℕ
  pub take_byte : List ℕ → Option (ℕ × List ℕ)
  pub put_word : ℕ → List ℕ
  pub take_word : List ℕ → Option (ℕ × List ℕ)
  pub put_bytes : List ℕ → List ℕ
  pub take_bytes : List ℕ → Option (List ℕ × List ℕ)
  pub put_words : List ℕ → List ℕ
  pub take_words : List ℕ → Option (List ℕ × List ℕ)
  pub put_string : String → List ℕ
  pub take_string : List ℕ → Option (String × List ℕ)
  -- The 32 bytes of a scalar, and the raw structs of points.
  pub put_scalar : sm9.Scalar → List ℕ
  pub take_scalar : List ℕ → Option (sm9.Scalar × List ℕ)
  pub put_g1 : sm9.G1 → List ℕ
  pub take_g1 : List ℕ → Option (sm9.G1 × List ℕ)
  pub put_g2 : sm9.G2 → List ℕ
  pub take_g2 : List ℕ → Option (sm9.G2 × List ℕ)
  -- `SM9GTElement::serialize` and `deserialize`, which reports a failure.
  pub gt_serialize : sm9.Gt → List ℕ
  pub gt_deserialize : List ℕ → Option sm9.Gt
  -- `static_cast` from `MaintenanceOpType` and to it.
  pub op_number : MaintenanceOpType → ℕ
  pub op_of_number : ℕ → MaintenanceOpType
  pub take-put_byte : (n : ℕ) → n < 256 → Reads take_byte (put_byte n) n
  pub take-put_word : (n : ℕ) → n < word_mod → Reads take_word (put_word n) n
  pub take-put_bytes : (bs : List ℕ) → AllBelow 256 bs → Reads take_bytes (put_bytes bs) bs
  pub take-put_words : (ns : List ℕ) → AllBelow word_mod ns → Reads take_words (put_words ns) ns
  pub take-put_string : (s : String) → Reads take_string (put_string s) s
  pub take-put_scalar : (x : sm9.Scalar) → Reads take_scalar (put_scalar x) x
  pub take-put_g1 : (p : sm9.G1) → Reads take_g1 (put_g1 p) p
  pub take-put_g2 : (p : sm9.G2) → Reads take_g2 (put_g2 p) p
  pub take_word-bounds :
      (bytes rest : List ℕ) (n : ℕ) → take_word bytes ≡ some (n, rest) → n < word_mod
  pub length-put_word : (n : ℕ) → length (put_word n) ≡ 8
  pub gt_serialize-bytes : (x : sm9.Gt) → AllBelow 256 (gt_serialize x)
  pub gt_deserialize-serialize : (x : sm9.Gt) → gt_deserialize (gt_serialize x) ≡ some x
  pub op_of_number-op_number : (t : MaintenanceOpType) → op_of_number (op_number t) ≡ t
