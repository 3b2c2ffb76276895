-- ===== src/Flags/Tests.antt =====
-- The flags of the package, with the defaults of config/config.go.
use sara.Common.{◌≡◌, refl, List, [], bytes_eq, lookup, insert, ret}
use sara.Config.{configs, init_conf, get_def}
use sara.Flags.{Flag, package_flags}

-- The variables of the package are made without a panic.
package_flags-ret : (flags : List Flag) × (package_flags (init_conf configs []) ≡ ret flags)
unfolding package_flags init_conf insert lookup get_def bytes_eq
package_flags-ret = (_, refl)
