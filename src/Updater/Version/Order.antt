-- ===== src/Updater/Version/Order.antt =====
-- internal/updater/version.go: the order of versions.
use wispdeck.Prelude.{◌≡◌, ◌↔◌, ◌<◌, ◌⊎◌, arith}
use wispdeck.Prelude.Int.{pos, negsuc}
use wispdeck.Updater.Version.{Version, compare_version}

-- The two arguments swapped give the opposite result, and 0 is equality.
pub compare_version-swap :
    (v w : Version)
    → ((compare_version v w ≡ negsuc 0) ↔ (compare_version w v ≡ pos 1))
      × ((compare_version v w ≡ pos 0) ↔ (v ≡ w))
unfolding compare_version
compare_version-swap v w = ground arith

-- The order of the components, the major one first.
unfoldable pub IsOlder : Version → Version → Type 0
IsOlder v w =
    (v.major < w.major)
    ⊎ ((v.major ≡ w.major) × ((v.minor < w.minor) ⊎ ((v.minor ≡ w.minor) × (v.patch < w.patch))))

-- The result is -1 exactly where the first component in which the versions differ is smaller in the
-- first version, and 1 exactly where it is smaller in the second one.
pub compare_version-IsOlder :
    (v w : Version)
    → ((compare_version v w ≡ negsuc 0) ↔ IsOlder v w)
      × ((compare_version v w ≡ pos 1) ↔ IsOlder w v)
unfolding compare_version IsOlder
compare_version-IsOlder v w = ground arith
