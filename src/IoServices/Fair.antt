-- ===== src/IoServices/Fair.antt =====
-- `GetIOService` takes the services in turn (src/asio.cpp).
use qth_frame.Base.{
  ℕ, zero, suc, ◌+◌, ◌≤◌, ◌<◌, ◌%◌, ◌^◌, ◌≡◌, refl, sym, ap, ◌∙◌, Option, some, List, [], ◌∷◌, ◌++◌,
  length, length-append, get_elem?, arith, mod-eq_of_close, dec_lt, subst,
}
use native.Mathlib.Nat.{mod-lt, mod-eq_of_lt}
use qth_frame.IoServices.{IoServices, push_services, create, get_io_service, after}

-- Each place of the list has its own number.
Numbered : List ℕ → Type 0
Numbered xs = (i : ℕ) → i < length xs → get_elem? xs i ≡ some i

get_elem?-snoc :
    (xs : List ℕ) (v i : ℕ) → i < length xs → get_elem? (xs ++ v ∷ []) i ≡ get_elem? xs i
get_elem?-snoc [] v i h = absurd (omega arith)
get_elem?-snoc (x ∷ xs) v zero h = refl
get_elem?-snoc (x ∷ xs) v (suc i) h = get_elem?-snoc xs v i (omega arith)

get_elem?-last : (xs : List ℕ) (v i : ℕ) → i ≡ length xs → get_elem? (xs ++ v ∷ []) i ≡ some v
get_elem?-last [] v zero h = refl
get_elem?-last [] v (suc i) h = absurd (omega arith)
get_elem?-last (x ∷ xs) v zero h = absurd (omega arith)
get_elem?-last (x ∷ xs) v (suc i) h = get_elem?-last xs v i (omega arith)

pushed-Numbered : (xs : List ℕ) → Numbered xs → Numbered (xs ++ length xs ∷ [])
unfolding Numbered
pushed-Numbered xs h i k = elim (dec_lt i (length xs)) [
  | yes p ↦ get_elem?-snoc xs (length xs) i p ∙ h i p
  | no p ↦
      let q : i ≡ length xs = omega (arith, length-append xs (length xs ∷ [])) in
      get_elem?-last xs (length xs) i q ∙ ap some (sym q)
]

push_services-Numbered :
    (n i : ℕ) (xs : List ℕ)
    → i ≡ length xs
    → Numbered xs
    → Numbered (push_services n i xs) × (length (push_services n i xs) ≡ n + i)
unfolding push_services
push_services-Numbered zero i xs e h = (h, omega arith)
push_services-Numbered (suc n) i xs e h =
    let (a, b) =
      push_services-Numbered n (i + 1) (xs ++ i ∷ []) (omega (arith, length-append xs (i ∷ [])))
        (subst (λ j. Numbered (xs ++ j ∷ [])) (sym e) (pushed-Numbered xs h)) in
    (a, omega (arith, b))

create-Numbered : (n : ℕ) → Numbered (create n).ios × (length (create n).ios ≡ n)
unfolding create Numbered
create-Numbered n =
    let (a, b) = push_services-Numbered n 0 [] refl (λ i h. absurd (omega arith)) in
    (a, omega (arith, b))

after-ios : (i : ℕ) (s : IoServices) → (after i s).ios ≡ s.ios
unfolding after get_io_service
after-ios zero s = refl
after-ios (suc i) s = after-ios i s

after-next : (i n : ℕ) → i < 2 ^ 64 → (after i (create n)).next ≡ i
unfolding after get_io_service create
after-next zero n h = refl
after-next (suc i) n h =
    ap (λ j. (j + 1) % 2 ^ 64) (after-next i n (omega arith))
    ∙ mod-eq_of_lt {n = i + 1} {m = 2 ^ 64} (omega arith)
    ∙ omega arith

-- What `GetIOService` answers after `i` calls, of `n` services.
abbrev pub answer : ℕ → ℕ → Option ℕ
answer n i = (get_io_service (after i (create n))).0

answer-mod : (n i : ℕ) → 0 < n → i < 2 ^ 64 → answer n i ≡ some (i % n)
unfolding get_io_service Numbered
answer-mod n i h k =
    let (a, b) = create-Numbered n in
    ap (λ xs. get_elem? xs ((after i (create n)).next % length xs)) (after-ios i (create n))
    ∙ ap (λ j. get_elem? (create n).ios (j % length (create n).ios)) (after-next i n k)
    ∙ ap (λ l. get_elem? (create n).ios (i % l)) b
    ∙ a (i % n) (omega (arith, b, mod-lt i {m = n} h))

-- The `n` calls after the first `s` all answer a service, and no two the same.
pub record IsFair (n s : ℕ) : Type 0 where
  pub serves : (i : ℕ) → s ≤ i → i < s + n → (k : ℕ) × (answer n i ≡ some k) × (k < n)
  pub differ : (i j : ℕ) → s ≤ i → i < s + n → s ≤ j → j < s + n → answer n i ≡ answer n j → i ≡ j

-- Of `n` services, with `n` above 0, any `n` calls of `GetIOService` in a row answer `n` different
-- services, as long as there are at most 2 ^ 64 calls in all.
pub get_io_service-IsFair : (n s : ℕ) → 0 < n → s + n ≤ 2 ^ 64 → IsFair n s
get_io_service-IsFair n s h k = record {
  serves = λ i a b. (i % n, answer-mod n i h (omega arith), mod-lt i {m = n} h);
  differ = λ i j a b c d e.
      mod-eq_of_close n s i j a b c d
        (some_inj (sym (answer-mod n i h (omega arith)) ∙ e ∙ answer-mod n j h (omega arith)));
}
  where
    some_inj : {x y : ℕ} → some x ≡ some y → x ≡ y
    some_inj e = cc
