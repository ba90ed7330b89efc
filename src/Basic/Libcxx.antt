-- ===== src/Basic/Libcxx.antt =====
-- The C++ library in the enclave: Enclave/TrustedLibrary/Libcxx.cpp, and
-- App/TrustedLibrary/Libcxx.cpp, which makes the calls. An assertion that fails is `none`.
use sgx_experiments.Prelude.{
  ℕ, Bool, false, ◌&&◌, List, [], ◌∷◌, Option, none, some, Bytes, same, ltb, ◌==◌, if◌then◌else◌,
}
use sgx_experiments.Prelude.Int.{ℤ, pos, negsuc}
use sgx_experiments.Basic.Bridge.{in_order}

-- `std::runtime_error` with its text, and every other exception.
pub data Exception : Type 0 where
  runtime_error : Bytes → Exception
  other_exception : Exception

-- A block that ends, or throws.
pub data Thrown : Type 0 where
  ended : Thrown
  throws : Exception → Thrown

abbrev pub foo : Bytes
foo = b'f' ∷ b'o' ∷ b'o' ∷ []

-- The handler of `std::runtime_error`: `e.what()` is the text, and the copy of `e` has it too.
abbrev pub on_runtime_error : Bytes → Option (Unit {0})
on_runtime_error what =
    let clone = what in if same foo what && same foo clone then some tt else none

-- The handlers, in their order.
abbrev pub catch : Thrown → Option (Unit {0})
catch ended = some tt
catch (throws (runtime_error what)) = on_runtime_error what
catch (throws other_exception) = none

unfoldable pub ecall_exception : Option (Unit {0})
ecall_exception = catch (throws (runtime_error foo))

-- `map<char, int, less<char>>`: pairs in the order of their keys, which are ASCII.
abbrev pub Map : Type 0
Map = List (ℕ × ℤ)

-- `find`: the value, or the end.
unfoldable pub find : ℕ → Map → Option ℤ
find k [] = none
find k ((j, v) ∷ m) =
    let rest = find k m in if ltb j k then rest else if j == k then some v else none

-- `insert`: a key that is there keeps its value.
unfoldable pub insert : ℕ → ℤ → Map → Map
insert k v [] = (k, v) ∷ []
insert k v ((j, w) ∷ m) =
    let rest = insert k v m in
    if ltb j k then (j, w) ∷ rest else if j == k then (j, w) ∷ m else (k, v) ∷ (j, w) ∷ m

-- `operator[]`: a key that is not there gets the value 0.
abbrev pub at : ℕ → Map → Map
at k m = insert k (pos 0) m

-- `m[k] == v`
abbrev pub has_value : ℤ → ℕ → Bool
has_value (pos n) v = n == v
has_value (negsuc n) v = false

abbrev pub reads_at : ℕ → ℕ → Map → Bool
reads_at k v m = elim (find k (at k m)) [ none ↦ false | some w ↦ has_value w v ]

-- The four insertions.
abbrev pub filled : Map
filled = insert b'd' (pos 4) (insert b'c' (pos 3) (insert b'b' (pos 2) (insert b'a' (pos 1) [])))

unfoldable pub ecall_map : Option (Unit {0})
unfolding find insert
ecall_map =
    let m0 = filled in
    let m1 = at b'a' m0 in
    let m2 = at b'b' m1 in
    let m3 = at b'c' m2 in
    let m4 = at b'd' m3 in
    if reads_at b'a' 1 m0 && reads_at b'b' 2 m1 && reads_at b'c' 3 m2 && reads_at b'd' 4 m3
    then elim (find b'e' m4) [ none ↦ some tt | some w ↦ none ]
    else none

unfoldable pub ecall_libcxx_functions : Option (Unit {0})
unfolding ecall_exception ecall_map
ecall_libcxx_functions = in_order (ecall_exception ∷ ecall_map ∷ [])
