-- ===== src/Go/Strconv/Tests.antt =====
-- Runs of the strconv functions.
use kube_service_exporter.Base.{◌≡◌, refl, true, false, none, some, codes, text_eq}
use kube_service_exporter.Go.Int.{pos, negsuc}
use kube_service_exporter.Go.Strconv.{format, itoa, parse_int, parse_bool}

parse_int_runs :
    (parse_int (codes "32046") ≡ some (pos 32046))
    × (parse_int (codes "-12") ≡ some (negsuc 11))
    × (parse_int (codes "+7") ≡ some (pos 7))
    × (parse_int (codes "2147483648") ≡ none)
    × (parse_int (codes "-2147483648") ≡ some (negsuc 2147483647))
    × (parse_int (codes "8o") ≡ none)
    × (parse_int (codes "-") ≡ none)
unfolding parse_int
parse_int_runs = (refl, refl, refl, refl, refl, refl, refl)

itoa_runs :
    (itoa (pos 0) ≡ codes "0")
    × (itoa (pos 8080) ≡ codes "8080")
    × (itoa (negsuc 9) ≡ codes "-10")
    × (format 16 255 ≡ codes "ff")
unfolding itoa format
itoa_runs = (refl, refl, refl, refl)

parse_bool_runs :
    (parse_bool (codes "true") ≡ some true)
    × (parse_bool (codes "0") ≡ some false)
    × (parse_bool (codes "yes") ≡ none)
unfolding parse_bool text_eq
parse_bool_runs = (refl, refl, refl)
