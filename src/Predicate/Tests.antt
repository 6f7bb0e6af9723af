-- ===== src/Predicate/Tests.antt =====
-- The default filter, loaded at address 3.
use mdb_linux.Base.{◌-◌, ◌≡◌, refl, true, [], ◌∷◌, some, get_or, arith}
use mdb_linux.Vector
use mdb_linux.Vm.Machine.{Machine, ok}
use mdb_linux.Vm.Ops.{result_as_bool}
use mdb_linux.Vm.Run.{run, fetch}
use mdb_linux.Predicate.{Predicate, parse, predicate_fns, empty_predicate}
use mdb_linux.Predicate.Filter.{parse-true}

abbrev loaded : Machine
loaded = record {
  stack = record { capacity = 32; items = 1 ∷ [] };
  mem = λ a. get_or empty_predicate (a - 3) 0;
}

abbrev default_filter : Predicate
default_filter = record {
  rc = 1;
  expr = record { rc = 1; capacity = 8; item_size = 1; data_ptr = 50; items = empty_predicate };
  fns = predicate_fns;
}

parsed_default : parse true (λ n. true) (λ n. 90) 50 (97 ∷ []) ≡ some default_filter
unfolding parse Vector.create Vector.append Vector.resize_if_required Vector.double_until
parsed_default = refl

parse-true_example :
    (out : Machine) × (run predicate_fns 2 3 loaded ≡ some (ok tt, out))
    × (result_as_bool out ≡ (ok true, out))
parse-true_example =
    parse-true (λ n. true) (λ n. 90) 50 (97 ∷ []) default_filter 0 3 loaded refl parsed_default
      (refl, (refl, (refl, (refl, (refl, (refl, (refl, (refl, tt)))))))) (omega arith)

-- At address 10 stands END.
ended : run predicate_fns 1 10 loaded ≡ some (ok tt, loaded)
unfolding run fetch
ended = refl
