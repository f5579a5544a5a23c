-- ===== src/Vmm/Pages.antt =====
-- kernel/vmm.c: the pages of `vmm_map_region` while frames are free.
use tuple_os.Common.{
  ℕ, ◌+◌, ◌*◌, ◌/◌, ◌%◌, ◌≤◌, ◌<◌, ◌≡◌, ◌≢◌, ◌⊎◌, refl, sym, ap, ◌∙◌, true, arith, Bool-cases, inl,
  inr, u32_mod,
}
use mathlib.Core.Bool.{false≢true}
use native.Mathlib.Decide.{dec_lt}
use tuple_os.Pmm.Bitmap.{is_free}
use tuple_os.Paging.{Machine, get_physical}
use tuple_os.Paging.Tables.{IsValid}
use tuple_os.Paging.Data.{IsData, Keeps, Keeps-refl, Keeps-trans}
use tuple_os.Vmm.Page.{Cleared, Paged}

-- What the loop leaves in the addresses from `lo` up to `hi`: every page has a frame of its own, which was
-- free and is zeroed; other addresses keep their translation.
pub record Pages (m : Machine) (lo hi : ℕ) (m' : Machine) : Type 0 where
  pub valid : IsValid m'
  pub keeps : Keeps m m'
  pub outside : (w : ℕ) → w < u32_mod → (w < lo) ⊎ (hi ≤ w) → get_physical m' w ≡ get_physical m w
  pub inside :
      (w : ℕ)
      → lo ≤ w
      → w < hi
      → (f : ℕ) × (get_physical m' w ≡ f * 4096 + w % 4096)
        × (is_free m.pmm.bitmap f ≡ true)
        × IsData m' f
        × Cleared m' f
  pub own :
      (w w' : ℕ)
      → lo ≤ w
      → w < hi
      → lo ≤ w'
      → w' < hi
      → get_physical m' w / 4096 ≡ get_physical m' w' / 4096
      → w / 4096 ≡ w' / 4096

pub no_pages : (m : Machine) (lo hi : ℕ) → IsValid m → hi ≤ lo → Pages m lo hi m
no_pages m lo hi v e = record {
  valid = v;
  keeps = Keeps-refl m;
  outside = λ w _ _. refl;
  inside = λ w a b. absurd (omega (arith, e, a, b));
  own = λ w w' a b _ _ _. absurd (omega (arith, e, a, b));
}

module _ (m : Machine) (v : ℕ) (m2 : Machine) (hi : ℕ) (m' : Machine) (aligned : v % 4096 ≡ 0)
    (fits : hi ≤ u32_mod) (p : Paged m v m2) (rest : Pages m2 (v + 4096) hi m') where
  -- The first page keeps what it was given.
  first_page :
      (w : ℕ) → v ≤ w → w < v + 4096 → w < u32_mod → get_physical m' w ≡ p.frame * 4096 + w % 4096
  first_page w lo near hw = rest.outside w hw (inl near) ∙ ground (arith, p.lookup w hw, aligned)

  freed_before : (f : ℕ) → is_free m2.pmm.bitmap f ≡ true → is_free m.pmm.bitmap f ≡ true
  freed_before f h = elim (Bool-cases (is_free m.pmm.bitmap f)) [
    | inl e ↦ e
    | inr e ↦ absurd (false≢true (sym (p.keeps.used f e) ∙ h))
  ]

  joined_inside :
      (w : ℕ)
      → v ≤ w
      → w < hi
      → (f : ℕ) × (get_physical m' w ≡ f * 4096 + w % 4096)
        × (is_free m.pmm.bitmap f ≡ true)
        × IsData m' f
        × Cleared m' f
  joined_inside w lo h = elim (dec_lt w (v + 4096)) [
    | yes near ↦
        let (d, same) = rest.keeps.kept p.frame p.data_frame in
        (
          p.frame,
          first_page w lo near (omega arith),
          p.was_free,
          d,
          λ k hk. same k ∙ p.cleared k hk,
        )
    | no far ↦
        let (f, at_f, free, d, zeros) = rest.inside w (omega arith) h in
        (f, at_f, freed_before f free, d, zeros)
  ]

  -- A later page lies in another frame.
  apart_pages :
      (w w' : ℕ)
      → v ≤ w
      → w < v + 4096
      → v + 4096 ≤ w'
      → w' < hi
      → w < u32_mod
      → get_physical m' w / 4096 ≢ get_physical m' w' / 4096
  apart_pages w w' lo near far h hw e =
      let (f, at_f, free, _, _) = rest.inside w' far h in
      let one : get_physical m' w ≡ p.frame * 4096 + w % 4096 = first_page w lo near hw in
      let same : p.frame ≡ f = omega (arith, one, at_f, e) in
      false≢true (sym p.data_frame.in_use ∙ ap (is_free m2.pmm.bitmap) same ∙ free)

  joined_own :
      (w w' : ℕ)
      → v ≤ w
      → w < hi
      → v ≤ w'
      → w' < hi
      → get_physical m' w / 4096 ≡ get_physical m' w' / 4096
      → w / 4096 ≡ w' / 4096
  joined_own w w' a b c d e = elim (dec_lt w (v + 4096)) [
    | yes near ↦ elim (dec_lt w' (v + 4096)) [
      | yes near' ↦ omega (arith, aligned)
      | no far' ↦ absurd (apart_pages w w' a near (omega arith) d (omega arith) e)
    ]
    | no far ↦ elim (dec_lt w' (v + 4096)) [
      | yes near' ↦ absurd (apart_pages w' w c near' (omega arith) b (omega arith) (sym e))
      | no far' ↦ rest.own w w' (omega arith) b (omega arith) d e
    ]
  ]

  pub joined : v + 4096 ≤ hi → Pages m v hi m'
  joined room = record {
    valid = rest.valid;
    keeps = Keeps-trans m m2 m' p.keeps rest.keeps;
    outside = λ w hw (o : (w < v) ⊎ (hi ≤ w)).
        rest.outside w hw (elim o [ inl below ↦ inl (omega arith) | inr above ↦ inr above ])
        ∙ ground (arith, p.lookup w hw, o, aligned, room);
    inside = joined_inside;
    own = joined_own;
  }
