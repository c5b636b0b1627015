-- ===== src/Secrets/Context.antt =====
-- pkg/secrets/context.go: the caches that one reconciliation shares, and their cleanup.
use spinnaker_operator.Base.{
  String, Bool, true, false, ◌≡◌, refl, some, List, [], ◌∷◌, ◌=ₛ◌, =ₛ→≡, =ₛ_refl, arith,
  if◌then◌else◌,
}
use spinnaker_operator.Base.Dict.{Dict, lookup}

-- `SecretContext`, without the client configuration, which the operator only passes on.
pub record SecretContext : Type 0 where
  pub cache : Dict String
  pub file_cache : Dict String
  pub namespace : String

unfoldable pub new_context : String → SecretContext
new_context ns = record { cache = []; file_cache = []; namespace = ns }

-- The file system, as far as the operator sees it: the paths that exist.
unfoldable pub exists : String → List String → Bool
exists p [] = false
exists p (q ∷ fs) = if q =ₛ p then true else exists p fs

-- `os.Remove`, with its error ignored.
unfoldable pub remove : String → List String → List String
remove p [] = []
remove p (q ∷ fs) = let rest = remove p fs in if q =ₛ p then rest else q ∷ rest

unfoldable pub remove_all : Dict String → List String → List String
remove_all [] fs = fs
remove_all ((k, p) ∷ m) fs = remove_all m (remove p fs)

unfoldable pub cleanup : SecretContext → List String → SecretContext × List String
unfolding remove_all remove
cleanup s fs = (record s { file_cache = [] }, remove_all s.file_cache fs)

exists-remove :
    (p q : String) (fs : List String)
    → exists q (remove p fs) ≡ (if p =ₛ q then false else exists q fs)
unfolding exists remove
exists-remove p q [] = ground arith
exists-remove p q (f ∷ fs) =
    ground (arith, exists-remove p q fs, =ₛ→≡ f p, =ₛ→≡ f q, =ₛ→≡ p q, =ₛ_refl p)

gone-remove_all :
    (m : Dict String) (q : String) (fs : List String)
    → exists q fs ≡ false
    → exists q (remove_all m fs) ≡ false
unfolding remove_all
gone-remove_all [] q fs h = h
gone-remove_all ((k, p) ∷ m) q fs h =
    gone-remove_all m q (remove p fs) (ground (arith, exists-remove p q fs))

cached-remove_all :
    (m : Dict String) (k p : String) (fs : List String)
    → lookup k m ≡ some p
    → exists p (remove_all m fs) ≡ false
unfolding remove_all lookup
cached-remove_all [] k p fs h = ground arith
cached-remove_all ((j, q) ∷ m) k p fs h = ground (
  arith,
  cached-remove_all m k p (remove q fs),
  gone-remove_all m q (remove q fs),
  exists-remove q q fs,
  =ₛ_refl q,
)

-- After `Cleanup` no temporary file of the file cache is left on disk, and the cache of files is
-- empty; the cache of values is as it was.
pub cleanup-exists :
    (s : SecretContext) (fs : List String) (k p : String)
    → lookup k s.file_cache ≡ some p
    → (exists p (cleanup s fs).1 ≡ false) × ((cleanup s fs).0 ≡ record s { file_cache = [] })
unfolding cleanup
cleanup-exists s fs k p h = (cached-remove_all s.file_cache k p fs h, refl)
