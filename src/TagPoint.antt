-- ===== src/TagPoint.antt =====
-- tags.cpp: the arithmetic of tags. A tag is its point σ, and the other operand any tag.
use dhtdynamic_audit_strateg.Base.{Bool, false, Option, none, some}
use dhtdynamic_audit_strateg.Exec.{Result, ok, err, tag_mismatch, scalar_mismatch}
use dhtdynamic_audit_strateg.CoreLib.Crypto.{Sm9}
use dhtdynamic_audit_strateg.Messages.{Tag, dht_tag, other_tag}

module _ ⦃sm9 : Sm9⦄ where
  open sm9 use {Scalar, G1, g1_infinity, g1_add, g1_sub, g1_mul, g1_eq}

  -- The default constructor.
  abbrev pub infinity_tag : G1
  infinity_tag = g1_infinity

  unfoldable pub assign_tag : G1 → Tag G1 → Result G1
  assign_tag sigma (dht_tag other) = ok other
  assign_tag sigma other_tag = err tag_mismatch

  unfoldable pub add_tag : G1 → Tag G1 → Result (Tag G1)
  add_tag sigma (dht_tag other) = ok (dht_tag (g1_add sigma other))
  add_tag sigma other_tag = err tag_mismatch

  unfoldable pub sub_tag : G1 → Tag G1 → Result (Tag G1)
  sub_tag sigma (dht_tag other) = ok (dht_tag (g1_sub sigma other))
  sub_tag sigma other_tag = err tag_mismatch

  unfoldable pub eq_tag : G1 → Tag G1 → Bool
  eq_tag sigma (dht_tag other) = g1_eq sigma other
  eq_tag sigma other_tag = false

  -- `none` is a scalar of another class than SM9CryptoData.
  unfoldable pub mul_tag : G1 → Option Scalar → Result (Tag G1)
  mul_tag sigma none = err scalar_mismatch
  mul_tag sigma (some k) = ok (dht_tag (g1_mul sigma k))
