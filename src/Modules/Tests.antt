-- ===== src/Modules/Tests.antt =====
-- One module, number 0, that always writes two bytes and always reads two, in a layout of one byte for the number and one for the
-- size.
use qth_frame.Base.{
  ◌<◌, ◌^◌, arith, ℕ, zero, suc, ◌≡◌, refl, none, some, List, [], ◌∷◌, ◌++◌, length, subst,
}
use qth_frame.Modules.{Module, Layout, IsLayout, Table, serialize, unserialize}
use qth_frame.Modules.Store.{IsRestored, Reads, unserialize-serialize}

abbrev at : List ℕ → ℕ → ℕ
at [] i = 0
at (b ∷ bs) zero = b
at (b ∷ bs) (suc i) = at bs i

abbrev small : Layout
small = record {
  head_size = 2;
  head = λ i n. i ∷ n ∷ [];
  id_of = λ bs. at bs 0;
  size_of = λ bs. at bs 1;
}

small-IsLayout : IsLayout small
small-IsLayout = record {
  sized = λ i n. refl;
  id_of-head = λ i n rest p q. refl;
  size_of-head = λ i n rest p q. refl;
}

abbrev two_bytes : Module
two_bytes = record { save = λ len. 8 ∷ 9 ∷ []; load = λ bs len. 2 }

abbrev table : Table
table zero = some two_bytes
table (suc i) = none

table-Reads : Reads small table
table-Reads zero m e len r rest =
    let p : two_bytes ≡ m = cc (e) in
    subst
      (λ (k : Module).
        (length (k.save len) < 2 ^ 64)
        × (k.load (small.head 0 (length (k.save len)) ++ (k.save len ++ rest)) r
            ≡ length (k.save len)))
      p (omega arith, refl)
table-Reads (suc i) m e len r rest = cc (e)

unserialize-serialize_example :
    ((unserialize small table (serialize small table 100).0 100).0 ≡ (serialize small table 100).1)
    × ((serialize small table 100).1 ≡ length (serialize small table 100).0)
    × IsRestored small table (unserialize small table (serialize small table 100).0 100).1
unserialize-serialize_example = unserialize-serialize small small-IsLayout table table-Reads 100 100
