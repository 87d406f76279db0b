-- ===== src/Baseline/Minas/Online/Clusters.antt =====
-- What a detection leaves of the buffer, and of the model.
use minas_flink.Prelude.{
  ℕ, ◌*◌, ◌≤◌, ◌<◌, ◌≡◌, refl, ap, ◌∙◌, Bool, true, false, Option, none, some, List, [], ◌∷◌, ◌++◌,
  drop, drop-append, arith, length, u32_mod, get_elem?, get_elem?-in, if◌then◌else◌,
}
use minas_flink.Double.{Double}
use minas_flink.Data.{Example, ok}
use minas_flink.Baseline.{BaseParams, BaseCluster, nearest_val}
use minas_flink.Baseline.KMeans.Total.{HaveDim, nearest_val-found}
use minas_flink.Baseline.Minas.{BaseModel}
use minas_flink.Baseline.Minas.Grows.{base_novelty-ok}
use minas_flink.Baseline.Minas.Online.{
  OnlineState, Compressed, taken_by, put_back, compress, detect_online,
}

module _ {W : Type 0} ⦃D : Double W⦄ where
  -- The kept examples are some of the examples.
  pub record IsFewer (dim : ℕ) (unknowns kept : List (Example W)) : Type 0 where
    pub fewer : length kept ≤ length unknowns
    pub dims : HaveDim dim kept

  abbrev taken_at : W → BaseCluster W → Option ℕ
  taken_at dist c = if D.le dist c.distance_max then some c.label else none

  taken_by-at :
      (new : List (BaseCluster W)) (i : ℕ) (dist : W) (c : BaseCluster W)
      → get_elem? new i ≡ some c
      → taken_by new (some i, dist) ≡ ok (taken_at dist c)
  unfolding taken_by
  taken_by-at new i dist c at = rw (taken_by, at) refl

  taken_by-ok :
      (junk : W) (new : List (BaseCluster W)) (val : List W)
      → 0 < length new
      → (taken : Option ℕ) × (taken_by new (nearest_val junk new val) ≡ ok taken)
  taken_by-ok junk new val h =
      let (i, dist, found, lt) = nearest_val-found junk new val h in
      let (c, at) = get_elem?-in new i lt in
      (taken_at dist c, ap (taken_by new) found ∙ taken_by-at new i dist c at)

  put_back-IsFewer :
      (prints : Bool) (dim : ℕ) (e : Example W) (taken : Option ℕ) (unknowns : List (Example W))
      (r : Compressed W)
      → length e.val ≡ dim
      → IsFewer dim unknowns r.kept
      → IsFewer dim (e ∷ unknowns) (put_back prints e taken r).kept
  unfolding put_back
  put_back-IsFewer prints dim e none unknowns r len v = record {
    fewer = omega (arith, v.fewer);
    dims = (len, v.dims);
  }
  put_back-IsFewer true dim e (some label) unknowns r len v = record {
    fewer = omega (arith, v.fewer);
    dims = v.dims;
  }
  put_back-IsFewer false dim e (some label) unknowns r len v = record {
    fewer = omega (arith, v.fewer);
    dims = v.dims;
  }

  compress-ok :
      (junk : W) (prints : Bool) (dim : ℕ) (new : List (BaseCluster W))
      (unknowns : List (Example W))
      → 0 < length new
      → HaveDim dim unknowns
      → (r : Compressed W) × (compress junk prints new unknowns ≡ ok r)
        × IsFewer dim unknowns r.kept
  unfolding compress
  compress-ok junk prints dim new [] h dims =
      (record { kept = []; lines = [] }, refl, record { fewer = omega arith; dims = tt })
  compress-ok junk prints dim new (e ∷ unknowns) h (len, dims) =
      let (taken, run) = taken_by-ok junk new e.val h in
      let (r, run', v) = compress-ok junk prints dim new unknowns h dims in
      (
        put_back prints e taken r,
        rw (run, run') refl,
        put_back-IsFewer prints dim e taken unknowns r len v,
      )

  -- Without CluStream, on a model that is not empty, with at least `k` and `k * minExamplesPerCluster`
  -- examples in the buffer, of `dim` values each, but fewer than 2^32, a detection goes through.
  pub detect_online-ok :
      (junk : W) (params : BaseParams W) (prints : Bool) (s : OnlineState W)
      → params.use_clu_stream ≡ false
      → 0 < length s.model.clusters
      → 0 < params.k
      → params.k ≤ length s.unknowns
      → params.min_examples_per_cluster * params.k ≤ length s.unknowns
      → length s.unknowns < u32_mod
      → HaveDim params.dim s.unknowns
      → (m' : BaseModel W) × (new : List (BaseCluster W)) × (r : Compressed W) × (detect_online junk
            params prints s
          ≡ ok (record s { model = m'; unknowns = r.kept; output = s.output ++ r.lines }))
        × (m'.clusters ≡ s.model.clusters ++ new)
        × IsFewer params.dim s.unknowns r.kept
  unfolding detect_online
  detect_online-ok junk params prints s plain some_model pos enough full small dims =
      let (m', new, run, appended, some_new) =
        base_novelty-ok junk params s.model s.unknowns plain some_model pos enough full small
          dims in
      let behind : drop (length s.model.clusters) m'.clusters ≡ new =
        ap (drop (length s.model.clusters)) appended
        ∙ drop-append s.model.clusters new (length s.model.clusters) refl in
      let (r, run', fewer) = compress-ok junk prints params.dim new s.unknowns some_new dims in
      (m', new, r, rw (run, behind, run') refl, appended, fewer)
