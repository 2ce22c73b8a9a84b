-- ===== src/Policy/Scores.antt =====
-- runtime/pullrun-policy/src/sbom.rs: `max_cvss` against the scores of a report.
use pullrun.Base.{
  ◌≡◌, sym, inl, inr, true, false, none, some, List, [], ◌∷◌, Bool-cases, some-inj, All,
}
use pullrun.Policy.Signature.{Services, Vulnerability}
use pullrun.Policy.Sbom.{SbomData, max_cvss, max_loop, higher}

module _ {Key Score : Type 0} (services : Services Key Score) where
  -- `x > y` and `x >= y` on f32 that are not NaN.
  pub record IsOrder : Type 0 where
    pub below :
        (x y m : Score)
        → services.gt x y ≡ false
        → services.ge y m ≡ false
        → services.ge x m ≡ false
    pub above :
        (x y m : Score) → services.gt x y ≡ true → services.ge x m ≡ false → services.ge y m ≡ false

  higher-below :
      IsOrder
      → (x y m : Score) → services.ge (higher services (some y) x) m ≡ false
      → (services.ge y m ≡ false) × (services.ge x m ≡ false)
  higher-below o x y m h = elim (Bool-cases (services.gt x y)) [
    | inl t ↦ let low = rw t at h in (o.above x y m t low, low)
    | inr f ↦ let low = rw f at h in (low, o.below x y m f low)
  ]

  loop-below :
      IsOrder
      → (y m top : Score) (vs : List (Vulnerability Score))
      → max_loop services (some y) vs ≡ some top
      → services.ge top m ≡ false
      → (services.ge y m ≡ false)
        × All (λ (v : Vulnerability Score). services.ge v.cvss m ≡ false) vs
  unfolding max_loop
  loop-below o y m top [] e h = (rw (sym (some-inj e)) at h, tt)
  loop-below o y m top (v ∷ vs) e h =
      let (acc, rest) = loop-below o (higher services (some y) v.cvss) m top vs e h in
      let (low, here) = higher-below o v.cvss y m acc in (low, (here, rest))

  -- Where no score is NaN: if the score that `max_cvss` reports is below a limit, every score is.
  pub max_cvss-bounds :
      (report : SbomData Score) (m top : Score)
      → IsOrder
      → max_cvss services report ≡ some top
      → services.ge top m ≡ false
      → All (λ (v : Vulnerability Score). services.ge v.cvss m ≡ false) report.vulnerabilities
  unfolding max_cvss max_loop
  max_cvss-bounds report m top o e h = start report.vulnerabilities e
    where
      start :
          (vs : List (Vulnerability Score))
          → max_loop services none vs ≡ some top
          → All (λ (v : Vulnerability Score). services.ge v.cvss m ≡ false) vs
      start [] g = cc
      start (v ∷ vs) g = let (here, rest) = loop-below o v.cvss m top vs g h in (here, rest)
