-- ===== src/Shared/Ids/Tests.antt =====
-- The generator of service ids.
use alkasir.Base.{◌≢◌, ◌≡◌, refl, some, arith, codes, str_eq}
use alkasir.Base.Decimal.{decimal}
use alkasir.Shared.Ids.{
  IdGen, key, new_id, after, new_id-distinct, new_id_gen, valid_prefix, all_alnum,
}

abbrev services : IdGen
services = record { count = 0; prefix = codes "service" }

made : new_id_gen (codes "service") ≡ some services
unfolding new_id_gen valid_prefix all_alnum str_eq
made = refl

first : (new_id services).0 ≡ codes "service-1"
unfolding new_id key decimal
first = refl

new_id-distinct_example : (new_id (after 2 services)).0 ≢ (new_id (after 5 services)).0
new_id-distinct_example = new_id-distinct services 2 5 (omega arith) (omega arith) (omega arith)
