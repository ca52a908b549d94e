-- ===== src/Graph/Build/Depth.antt =====
-- The fuel of `ensureDir`: `path.Dir` returns a shorter path, but at the root and for a path that is its own.
use Prim.Native.String.{len}
use cann_o_call.Prelude.{
  ℕ, zero, suc, ◌<◌, ◌≡◌, refl, ap, String, Bool, true, false, ◌||◌, ◌==◌, arith, if◌then◌else◌,
}
use cann_o_call.Ingest.{Lib}
use cann_o_call.Graph.{Provenance}
use cann_o_call.Graph.Build.{Building, ensure_dir, enter, is_root}

branch {ℓ} :
    {A : Type ℓ} (z x y : A) (c : Bool)
    → (c ≡ false → x ≡ y)
    → (if c then z else x) ≡ (if c then z else y)
branch z x y true h = refl
branch z x y false h = h refl

-- As many steps as the path is long, and one more, give what any larger number gives.
ensure_dir_enough :
    (lib : Lib) (dir : String → String) (workspace : String)
    → ((path : String)
        → (is_root (dir path) || dir path == path) ≡ false
        → len (dir path) < len path)
    → (n m : ℕ) (prov : Provenance) (path : String) (b : Building) → len path < n
    → len path < m
    → ensure_dir lib dir workspace n prov path b ≡ ensure_dir lib dir workspace m prov path b
unfolding ensure_dir
ensure_dir_enough lib dir w shorter zero m prov path b h k = absurd (omega (arith, h))
ensure_dir_enough lib dir w shorter (suc n) zero prov path b h k = absurd (omega (arith, k))
ensure_dir_enough lib dir w shorter (suc n) (suc m) prov path b h k =
    ap (λ above. enter lib dir w prov path above b)
      (branch (b, "") _ _ (is_root (dir path) || dir path == path)
        (λ e.
          let less = shorter path e in
          ensure_dir_enough lib dir w shorter n m prov (dir path) b (omega (arith, less, h))
            (omega (arith, less, k))))
