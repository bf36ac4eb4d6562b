-- ===== src/IoServices/Tests.antt =====
-- Three services, from the second call on.
use qth_frame.Base.{arith, some, ◌≡◌, refl}
use qth_frame.IoServices.{create, get_io_service, after, push_services}
use qth_frame.IoServices.Fair.{answer, IsFair, get_io_service-IsFair}

fourth_answer : answer 3 4 ≡ some 1
unfolding create get_io_service after push_services
fourth_answer = refl

get_io_service-IsFair_example : IsFair 3 1
get_io_service-IsFair_example = get_io_service-IsFair 3 1 (omega arith) (omega arith)
