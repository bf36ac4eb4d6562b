-- ===== src/Connect/Tests.antt =====
-- Two reads, of which the first is dealt with, and an error.
use qth_frame.Base.{none, List, [], ◌∷◌}
use qth_frame.Connect.{Event, comes, fails, works, happen_all}
use qth_frame.Connect.Stream.{IsStream, came, fresh, fresh-IsStream}

abbrev session : List Event
session = comes (1 ∷ 2 ∷ []) 100 ∷ comes (3 ∷ []) 200 ∷ works ∷ fails none none 5 ∷ []

fresh-IsStream_example : IsStream (came session) (happen_all session fresh)
fresh-IsStream_example = fresh-IsStream session
