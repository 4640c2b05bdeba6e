-- ===== src/Visualizer/Window/Log.antt =====
-- The activity log of app.py.
use anycall.Prelude.{
  ℕ, zero, suc, ◌+◌, ◌-◌, ◌≤◌, ◌≡◌, refl, sym, ap, subst, ◌∙◌, arith, List, [], ◌∷◌, ◌++◌, length,
  drop, length-append, append-nil, append_assoc,
}
use anycall.Text.{Text}
use anycall.Visualizer.{Event}
use anycall.Visualizer.Window.{
  log_line, lines, last_lines, append_plain_text, append_events, max_log_lines,
}

module _ {A : Type 0} where
  length-drop : (n : ℕ) (xs : List A) → length (drop n xs) ≡ length xs - n
  length-drop zero xs = omega arith
  length-drop (suc n) [] = omega arith
  length-drop (suc n) (x ∷ xs) = omega (arith, length-drop n xs)

  drop-nil : (n : ℕ) → drop {A = A} n [] ≡ []
  drop-nil zero = refl
  drop-nil (suc n) = refl

  drop-drop : (m n : ℕ) (xs : List A) → drop m (drop n xs) ≡ drop (n + m) xs
  drop-drop m zero xs = ap (λ k. drop k xs) (omega arith)
  drop-drop m (suc n) [] = drop-nil m ∙ sym (drop-nil (suc n + m))
  drop-drop m (suc n) (x ∷ xs) =
      let e : suc (n + m) ≡ suc n + m = omega arith in
      drop-drop m n xs ∙ ap (λ k. drop k (x ∷ xs)) e

  drop-front : (n : ℕ) (xs ys : List A) → n ≤ length xs → drop n xs ++ ys ≡ drop n (xs ++ ys)
  drop-front zero xs ys h = refl
  drop-front (suc n) [] ys h = absurd (omega (arith, h))
  drop-front (suc n) (x ∷ xs) ys h = drop-front n xs ys (omega (arith, h))

last_lines_again :
    (n : ℕ) (xs ys : List Text) → last_lines n (last_lines n xs ++ ys) ≡ last_lines n (xs ++ ys)
unfolding last_lines
last_lines_again n xs ys =
    rw
      (
        drop-front (length xs - n) xs ys (omega arith),
        length-drop (length xs - n) (xs ++ ys),
        drop-drop (length (xs ++ ys) - (length xs - n) - n) (length xs - n) (xs ++ ys),
      )
      (ap (λ k. drop k (xs ++ ys)) (omega (arith, length-append xs ys)))

last_lines_all : (n : ℕ) (xs : List Text) → length xs ≤ n → last_lines n xs ≡ xs
unfolding last_lines
last_lines_all n xs h = let e : length xs - n ≡ 0 = omega (arith, h) in rw e refl

length-last_lines : (n : ℕ) (xs : List Text) → length (last_lines n xs) ≤ n
unfolding last_lines
length-last_lines n xs = omega (arith, length-drop (length xs - n) xs)

module _ (time_of_day : ℕ → Text) where
  -- The lines of the events.
  abbrev pub event_lines : List Event → List Text
  event_lines [] = []
  event_lines (e ∷ events) = lines (log_line time_of_day e) ++ event_lines events

  appended :
      (events : List Event) (log : List Text)
      → length log ≤ max_log_lines
      → append_events time_of_day events log ≡ last_lines max_log_lines (log ++ event_lines events)
  unfolding append_events append_plain_text
  appended [] log h =
      sym (ap (last_lines max_log_lines) (append-nil log) ∙ last_lines_all max_log_lines log h)
  appended (e ∷ events) log h =
      let new = lines (log_line time_of_day e) in
      appended events (append_plain_text (log_line time_of_day e) log)
        (length-last_lines max_log_lines (log ++ new))
      ∙ last_lines_again max_log_lines (log ++ new) (event_lines events)
      ∙ ap (last_lines max_log_lines) (append_assoc log new (event_lines events))

  -- From a log that is not too long, the events' lines are added and the last 1000 lines are kept.
  pub log_keeps_the_last :
      (events : List Event) (log : List Text)
      → length log ≤ max_log_lines
      → (append_events time_of_day events log
          ≡ last_lines max_log_lines (log ++ event_lines events))
        × (length (append_events time_of_day events log) ≤ max_log_lines)
  log_keeps_the_last events log h = (
    appended events log h,
    subst (λ lines. length lines ≤ max_log_lines) (sym (appended events log h))
        (length-last_lines max_log_lines (log ++ event_lines events)),
  )
