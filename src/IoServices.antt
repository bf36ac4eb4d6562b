-- ===== src/IoServices.antt =====
-- `CIOServices` (src/asio.cpp, include/asio/asio.h): the IO services of the framework, one for each
-- thread. A service of boost is a number, the place at which the constructor makes it.
pub mod Fair
mod Tests
use qth_frame.Base.{ℕ, zero, suc, ◌+◌, ◌%◌, ◌^◌, Option, List, [], ◌∷◌, ◌++◌, length, get_elem?}

-- `m_ios` and `m_next`
pub record IoServices : Type 0 where
  pub ios : List ℕ
  pub next : ℕ

-- The rounds of the constructor's loop from `i`, with the services made before.
unfoldable pub push_services : ℕ → ℕ → List ℕ → List ℕ
push_services zero i ios = ios
push_services (suc n) i ios = push_services n (i + 1) (ios ++ i ∷ [])

-- The constructor.
unfoldable pub create : ℕ → IoServices
create num_service = record { ios = push_services num_service 0 []; next = 0 }

-- `GetIOService`: none is where the code divides by zero or reads outside the vector.
unfoldable pub get_io_service : IoServices → Option ℕ × IoServices
get_io_service s =
    (get_elem? s.ios (s.next % length s.ios), record s { next = (s.next + 1) % 2 ^ 64 })

-- After `n` calls of `GetIOService`.
unfoldable pub after : ℕ → IoServices → IoServices
after zero s = s
after (suc n) s = (get_io_service (after n s)).1
