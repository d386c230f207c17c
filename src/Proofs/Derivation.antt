-- ===== src/Proofs/Derivation.antt =====
-- The sums of the prover and of the verifier: the derivation at the head of generate_proofs.cpp.
use dhtdynamic_audit_strateg.Base.{
  ◌-◌, ◌≡◌, refl, sym, ap, ◌∙◌, true, false, some, List, [], ◌∷◌, String, ◌==◌,
}
use dhtdynamic_audit_strateg.CoreLib.Crypto.{Sm9}
use dhtdynamic_audit_strateg.CoreLib.TagSet.{TagSets}
use dhtdynamic_audit_strateg.CoreLib.Serializer.{Serializer}
use dhtdynamic_audit_strateg.Common.{
  compute_block_hash, accumulate_block_segments_scalar, accumulate_block_segments_g1,
}
use dhtdynamic_audit_strateg.Messages.{Tag, dht_tag, AuditBlockSource, PublicParams, ChallengeItem}
use dhtdynamic_audit_strateg.Tags.{sigma_of}
use dhtdynamic_audit_strateg.Proofs.{Sums, no_sums, add_item, add_items, add_hashes}
use dhtdynamic_audit_strateg.Proofs.Laws.{Bilinear}

module _ ⦃sm9 : Sm9⦄ ⦃tag_sets : TagSets (Tag sm9.G1)⦄ ⦃serializer : Serializer⦄ where
  open sm9 use {
    Scalar, G1, G2, Gt, g1_infinity, g1_add, g1_mul, g1_is_infinity, g2_is_infinity, g2_mul, gt_one,
    pairing, gt_pow, gt_mul, gt_eq, scalar_zero,
  }
  open tag_sets use {Tags, tag_at}

  -- The item's block has the tag that `generate_tags` makes of its content and of the item's
  -- metadata, and the tag is not the point at infinity.
  pub record IsTagged (u : G1) (a : Scalar) (id : String) (tags : Tags) (blocks : AuditBlockSource)
      (item : ChallengeItem) : Type 0 where
    pub positive : item.block_index == 0 ≡ false
    pub tag :
        tag_at tags (item.block_index - 1)
        ≡ some (
            dht_tag (
              sigma_of u a id item.block_index item.metadata (blocks.block (item.block_index - 1))))
    pub finite :
        g1_is_infinity
          (sigma_of u a id item.block_index item.metadata (blocks.block (item.block_index - 1)))
        ≡ false

  abbrev pub AllItemsTagged :
      G1 → Scalar → String → Tags → AuditBlockSource → List ChallengeItem → Type 0
  AllItemsTagged u a id tags blocks [] = Unit
  AllItemsTagged u a id tags blocks (item ∷ items) =
      IsTagged u a id tags blocks item × AllItemsTagged u a id tags blocks items

module _ ⦃sm9 : Sm9⦄ ⦃tag_sets : TagSets (Tag sm9.G1)⦄ ⦃serializer : Serializer⦄
    (laws : Bilinear) where
  open sm9 use {
    Scalar, G1, G2, Gt, g1_infinity, g1_add, g1_mul, g1_is_infinity, g2_is_infinity, g2_mul, gt_one,
    pairing, gt_pow, gt_mul, gt_eq, scalar_zero,
  }
  open tag_sets use {Tags, tag_at}
  open laws use {e, pow, mul, times}

  -- e(σ, g)^ν = e([ν]·H + [ν·m]·u, y)
  sigma-paired :
      (h u : G1) (m a nu : Scalar) (g : G2)
      → pow (e (g1_mul (g1_add h (g1_mul u m)) a) g) nu
        ≡ e (g1_add (g1_mul h nu) (g1_mul u (times nu m))) (g2_mul g a)
  sigma-paired h u m a nu g =
      rw
        (
          laws.e_mul_left (g1_add h (g1_mul u m)) g a,
          ← laws.e_mul_right (g1_add h (g1_mul u m)) g a,
          ← laws.e_mul_left (g1_add h (g1_mul u m)) (g2_mul g a) nu,
          laws.mul_add h (g1_mul u m) nu,
          ← laws.mul_times u nu m,
        )
        refl

  swap_middle : (h k v w : G1) → g1_add (g1_add h v) (g1_add k w) ≡ g1_add (g1_add h k) (g1_add v w)
  swap_middle h k v w =
      rw
        (
          laws.add_assoc h v (g1_add k w),
          ← laws.add_assoc v k w,
          laws.add_comm v k,
          laws.add_assoc k v w,
          ← laws.add_assoc h k (g1_add v w),
        )
        refl

  abbrev pub block_scalar : AuditBlockSource → ChallengeItem → Scalar
  block_scalar blocks item = accumulate_block_segments_scalar (blocks.block (item.block_index - 1))

  item_hash : String → ChallengeItem → G1
  item_hash id item = compute_block_hash id item.block_index item.metadata

  abbrev pub item_sigma : G1 → Scalar → String → AuditBlockSource → ChallengeItem → G1
  item_sigma u a id blocks item =
      sigma_of u a id item.block_index item.metadata (blocks.block (item.block_index - 1))

  -- The sums after an item that is not skipped.
  abbrev pub next : PublicParams → Scalar → String → AuditBlockSource → Sums → ChallengeItem → Sums
  next params a id blocks sums item = record {
    theta = mul sums.theta (pow (e (item_sigma params.u a id blocks item) params.g) item.nu);
    m = sm9.scalar_sum sums.m (times item.nu (block_scalar blocks item));
    accumulated = true;
  }

  add_item-next :
      (params : PublicParams) (a : Scalar) (id : String) (tags : Tags) (blocks : AuditBlockSource)
      (sums : Sums) (item : ChallengeItem)
      → g2_is_infinity params.g ≡ false
      → IsTagged params.u a id tags blocks item
      → add_item params.g tags blocks sums item ≡ next params a id blocks sums item
  unfolding add_item
  add_item-next params a id tags blocks sums item finite tagged =
      simp
        (
          tagged.positive,
          tagged.tag,
          tagged.finite,
          laws.pairing_some (item_sigma params.u a id blocks item) params.g tagged.finite finite,
          laws.pow_some,
          laws.mul_some,
          laws.times_some,
        )
        refl

  next-theta :
      (params : PublicParams) (a : Scalar) (id : String) (blocks : AuditBlockSource) (sums : Sums)
      (item : ChallengeItem) (h : G1)
      → params.y ≡ g2_mul params.g a
      → sums.theta ≡ e (g1_add h (g1_mul params.u sums.m)) params.y
      → (next params a id blocks sums item).theta
        ≡ e
            (g1_add
              (g1_add h (g1_mul (item_hash id item) item.nu))
              (g1_mul params.u (next params a id blocks sums item).m))
            params.y
  unfolding sigma_of accumulate_block_segments_g1 item_hash
  next-theta params a id blocks sums item h key inv =
      let share =
        sigma-paired (item_hash id item) params.u (block_scalar blocks item) a item.nu params.g in
      ap (λ x. mul x (pow (e (item_sigma params.u a id blocks item) params.g) item.nu)) inv
      ∙ ap (mul (e (g1_add h (g1_mul params.u sums.m)) params.y)) (share ∙ ap (e _) (sym key))
      ∙ sym (laws.e_add (g1_add h (g1_mul params.u sums.m)) _ params.y)
      ∙ ap (λ p. e p params.y)
          (swap_middle h (g1_mul (item_hash id item) item.nu) (g1_mul params.u sums.m) _
            ∙ ap (g1_add _) (sym (laws.mul_sum params.u sums.m _)))

  pub add_items_cons :
      (params : PublicParams) (a : Scalar) (id : String) (tags : Tags) (blocks : AuditBlockSource)
      (sums : Sums) (item : ChallengeItem) (items : List ChallengeItem)
      → g2_is_infinity params.g ≡ false
      → IsTagged params.u a id tags blocks item
      → add_items params.g tags blocks sums (item ∷ items)
        ≡ add_items params.g tags blocks (next params a id blocks sums item) items
  unfolding add_items
  add_items_cons params a id tags blocks sums item items finite tagged =
      ap (λ sums'. add_items params.g tags blocks sums' items)
        (add_item-next params a id tags blocks sums item finite tagged)

  -- The sums after the loop: Θ = e(H + M·u, y).
  pub add_items-theta :
      (params : PublicParams) (a : Scalar) (id : String) (tags : Tags) (blocks : AuditBlockSource)
      (items : List ChallengeItem) (sums : Sums) (h : G1)
      → g2_is_infinity params.g ≡ false
      → params.y ≡ g2_mul params.g a
      → AllItemsTagged params.u a id tags blocks items
      → sums.theta ≡ e (g1_add h (g1_mul params.u sums.m)) params.y
      → (add_items params.g tags blocks sums items).theta
        ≡ e
            (g1_add
              (add_hashes id h items)
              (g1_mul params.u (add_items params.g tags blocks sums items).m))
            params.y
  unfolding add_items add_hashes item_hash
  add_items-theta params a id tags blocks [] sums h finite key all inv = inv
  add_items-theta params a id tags blocks (item ∷ items) sums h finite key all inv =
      rw (add_items_cons params a id tags blocks sums item items finite all.0) (
        add_items-theta params a id tags blocks items (next params a id blocks sums item)
          (g1_add h (g1_mul (item_hash id item) item.nu)) finite key all.1
          (next-theta params a id blocks sums item h key inv))

  pub add_items-accumulated :
      (params : PublicParams) (a : Scalar) (id : String) (tags : Tags) (blocks : AuditBlockSource)
      (items : List ChallengeItem) (sums : Sums)
      → g2_is_infinity params.g ≡ false
      → AllItemsTagged params.u a id tags blocks items
      → sums.accumulated ≡ true
      → (add_items params.g tags blocks sums items).accumulated ≡ true
  unfolding add_items
  add_items-accumulated params a id tags blocks [] sums finite all set = set
  add_items-accumulated params a id tags blocks (item ∷ items) sums finite all set =
      rw (add_items_cons params a id tags blocks sums item items finite all.0) (
        add_items-accumulated params a id tags blocks items (next params a id blocks sums item)
          finite all.1 refl)

  pub no_sums-theta :
      (u : G1) (y : G2) → no_sums.theta ≡ e (g1_add g1_infinity (g1_mul u no_sums.m)) y
  no_sums-theta u y = rw (laws.mul_zero u, laws.add_infinity g1_infinity, laws.e_infinity y) refl

  -- The verification equation, for Θ = e(H + M·u, y) and Λ = e(u, R)^M.
  pub equation :
      (h u : G1) (y : G2) (r m : Scalar)
      → pow (e (g1_add h (g1_mul u m)) y) r ≡ mul (pow (e u (g2_mul y r)) m) (e h (g2_mul y r))
  equation h u y r m =
      sym (laws.e_mul_right (g1_add h (g1_mul u m)) y r)
      ∙ laws.e_add h (g1_mul u m) (g2_mul y r)
      ∙ laws.product_comm _ _
      ∙ ap (λ x. mul x (e h (g2_mul y r))) (laws.e_mul_left u (g2_mul y r) m)
