-- ===== src/Util/RingBuf/Tests.antt =====
-- Tests of the byte ring.
use n32r.Prelude.{ℕ, ◌≡◌, refl, List, [], ◌∷◌, ◌++◌, true, false, arith, take, drop}
use n32r.Util.RingBuf.{RingBuf, init, write, read}
use n32r.Util.RingBuf.Contents.{contents, IsValid, keep_last}
use n32r.Util.RingBuf.Write.{write_lem}
use n32r.Util.RingBuf.Read.{read_lem, init-IsValid}

abbrev zeros : List ℕ
zeros = 0 ∷ 0 ∷ 0 ∷ []

abbrev three : RingBuf
three = record { buffer = zeros; capacity = 3; head = 0; tail = 0; full = false }

abbrev four : List ℕ
four = 1 ∷ 2 ∷ 3 ∷ 4 ∷ []

abbrev wrapped : RingBuf
wrapped = record { buffer = 4 ∷ 2 ∷ 3 ∷ []; capacity = 3; head = 1; tail = 1; full = true }

write_overwrites : (write three four).1 ≡ wrapped
unfolding write
write_overwrites = refl

read_back : (read wrapped 2).0 ≡ 2 ∷ 3 ∷ []
unfolding read
read_back = refl

write_lem_example :
    let (written, rb') = write (init zeros 3) four in
    (written ≡ 4) × (contents rb' ≡ keep_last 3 (contents (init zeros 3) ++ four)) × IsValid rb'
unfolding init
write_lem_example =
    write_lem four {rb = init zeros 3} (init-IsValid zeros 3 (omega arith) (omega arith)).0
      (omega arith) (omega arith)

three-IsValid : IsValid three
unfolding init
three-IsValid = (init-IsValid zeros 3 (omega arith) (omega arith)).0

wrapped-IsValid : IsValid wrapped
unfolding write
wrapped-IsValid =
    let (_, _, v) = write_lem four {rb = three} three-IsValid (omega arith) (omega arith) in v

read_lem_example :
    let (out, rb') = read wrapped 2 in
    (out ≡ take 2 (contents wrapped)) × (contents rb' ≡ drop 2 (contents wrapped)) × IsValid rb'
read_lem_example = read_lem 2 {rb = wrapped} wrapped-IsValid
