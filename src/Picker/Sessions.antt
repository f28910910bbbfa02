-- ===== src/Picker/Sessions.antt =====
-- What the page and the widget of `psDatetimePicker` hold after any picks, clearings and changes.
use ais_store.Prelude.{
  ap₂, ℕ, suc, Bool, true, false, Option, none, some, List, [], ◌∷◌, ◌≡◌, refl, ◌∙◌, ap, foldl, inl,
  inr, Bool-cases, if◌then◌else◌, All,
}
use ais_store.Prelude.Int.{ℤ, pos, eq_ℤ, eq_ℤ_refl, eq_ℤ-eq}
use ais_store.Text.{Text}
use ais_store.Picker.{
  Widget, Binding, dp_change, catch, truthy_date, date_seen, shown_text, widget_set, date_changed,
  watch,
}

-- The user picks a date in the widget or empties it, and the page changes the date.
pub data Event : Type 0 where
  pick : ℤ → Event
  empty : Event
  change : ℤ → Event

-- The date 0 is falsy.
abbrev pub IsTruthy : Event → Type 0
IsTruthy (pick d) = eq_ℤ d (pos 0) ≡ false
IsTruthy empty = Unit
IsTruthy (change d) = eq_ℤ d (pos 0) ≡ false

-- What the two hold: the date of the page, and whether the widget shows it.
abbrev pub expect : ℤ × Bool → Event → ℤ × Bool
expect (d, shown) (pick e) = (e, true)
expect (d, shown) empty = (d, false)
expect (d, shown) (change e) = (e, (if eq_ℤ d e then shown else true))

truthy_some : (d : ℤ) → eq_ℤ d (pos 0) ≡ false → truthy_date (some d) ≡ some d
truthy_some d t = rw t refl

-- The directive as it is linked to a date of the page.
abbrev pub linked : ℤ → Binding
linked d = record { date = some d; picker_date = none; text = []; seen = none; thrown = 0 }

module _ (widget : Widget) where
  unfoldable pub happen : Binding → Event → Binding
  happen b (pick d) = let c = record b { picker_date = some d } in catch c (dp_change c)
  happen b empty = let c = record b { picker_date = none } in catch c (dp_change c)
  happen b (change d) = record b { date = some d }

  -- An event, and the digest after it.
  unfoldable pub turn : Binding → Event → Binding
  unfolding happen
  turn b e = watch widget (watch widget (happen b e))

  -- The widget takes a date as it is, as the library documents.
  abbrev pub TakesDates : Type 0
  TakesDates = (old : Option ℤ) (d : ℤ) → widget.set old (some d) ≡ some (some d)

  pub record Holds (b : Binding) (x : ℤ × Bool) : Type 0 where
    pub nonzero : eq_ℤ x.0 (pos 0) ≡ false
    pub date : b.date ≡ some x.0
    pub seen : b.seen ≡ some (some x.0)
    pub picker_date : b.picker_date ≡ (if x.1 then some x.0 else none)

  module _ (takes : TakesDates) where
    abbrev state : Option ℤ → Option ℤ → Text → Option (Option ℤ) → ℕ → Binding
    state date picker_date text seen thrown = record {
      date = date;
      picker_date = picker_date;
      text = text;
      seen = seen;
      thrown = thrown;
    }

    -- Whether the widget says so or not, it then has the date of the page.
    date_changed_lem :
        (d : ℤ) (p : Option ℤ) (text : Text) (x : Option (Option ℤ)) (k : ℕ)
        → eq_ℤ d (pos 0) ≡ false
        → date_changed widget (state (some d) p text x k)
          ≡ state (some d) (some d) (widget.print d) x k
    unfolding date_changed widget_set dp_change
    date_changed_lem d p text x k t =
        let shown = ap (λ o. state (some d) (some d) (shown_text widget o) x k) (truthy_some d t) in
        rw (truthy_some d t, takes p d, date_changed)
          (elim (Bool-cases (widget.fires p (some d))) [ inl e ↦ rw e shown | inr e ↦ rw e shown ])

    watch_new :
        (d : ℤ) (p : Option ℤ) (text : Text) (x : Option (Option ℤ)) (k : ℕ)
        → eq_ℤ d (pos 0) ≡ false
        → date_seen x (some d) ≡ false
        → watch widget (state (some d) p text x k)
          ≡ state (some d) (some d) (widget.print d) (some (some d)) k
    unfolding watch
    watch_new d p text x k t unseen = rw unseen (date_changed_lem d p text (some (some d)) k t)

    watch_old : (b : Binding) → date_seen b.seen b.date ≡ true → watch widget b ≡ b
    unfolding watch
    watch_old b e = rw e refl

    -- Two calls of the watch at the date `d`, when it has seen `v`.
    watch_twice_seen :
        (d v : ℤ) (p : Option ℤ) (text : Text) (k : ℕ)
        → eq_ℤ v d ≡ true
        → watch widget (watch widget (state (some d) p text (some (some v)) k))
          ≡ state (some d) p text (some (some v)) k
    watch_twice_seen d v p text k e =
        let still = watch_old (state (some d) p text (some (some v)) k) e in
        ap (watch widget) still ∙ still

    watch_twice_new :
        (d v : ℤ) (p : Option ℤ) (text : Text) (k : ℕ)
        → eq_ℤ d (pos 0) ≡ false
        → eq_ℤ v d ≡ false
        → watch widget (watch widget (state (some d) p text (some (some v)) k))
          ≡ state (some d) (some d) (widget.print d) (some (some d)) k
    watch_twice_new d v p text k t e =
        ap (watch widget) (watch_new d p text (some (some v)) k t e)
        ∙ watch_old (state (some d) (some d) (widget.print d) (some (some d)) k) (eq_ℤ_refl d)

    -- The widget shows the date afterwards if it did so before or if the date is new.
    settle :
        (d v : ℤ) (shown : Bool) (text : Text) (k : ℕ)
        → eq_ℤ d (pos 0) ≡ false
        → Holds
            (watch widget (
              watch widget
                (state (some d) (if shown then some v else none) text (some (some v)) k)))
            (d, (if eq_ℤ v d then shown else true))
    settle d v shown text k t = elim (Bool-cases (eq_ℤ v d)) [
      | inl e ↦
          let same = eq_ℤ-eq v d e in
          rw (watch_twice_seen d v (if shown then some v else none) text k e) (
            rw e (record {
              nonzero = t;
              date = refl;
              seen = ap (λ c. some (some c)) same;
              picker_date = ap (λ c. if shown then some c else none) same;
            }))
      | inr e ↦
          rw (watch_twice_new d v (if shown then some v else none) text k t e)
            (rw e (record { nonzero = t; date = refl; seen = refl; picker_date = refl }))
    ]

    settle_picked :
        (d v : ℤ) (text : Text) (k : ℕ)
        → eq_ℤ d (pos 0) ≡ false
        → Holds
            (watch widget (watch widget (state (some d) (some d) text (some (some v)) k)))
            (d, true)
    settle_picked d v text k t = elim (Bool-cases (eq_ℤ v d)) [
      | inl e ↦ rw (watch_twice_seen d v (some d) text k e) (record {
        nonzero = t;
        date = refl;
        seen = ap (λ c. some (some c)) (eq_ℤ-eq v d e);
        picker_date = refl;
      })
      | inr e ↦
          rw (watch_twice_new d v (some d) text k t e)
            (record { nonzero = t; date = refl; seen = refl; picker_date = refl })
    ]

    turn-Holds :
        (v : ℤ) (shown : Bool) (text : Text) (k : ℕ) (e : Event)
        → eq_ℤ v (pos 0) ≡ false
        → IsTruthy e
        → Holds
            (turn (state (some v) (if shown then some v else none) text (some (some v)) k) e)
            (expect (v, shown) e)
    unfolding turn happen dp_change
    turn-Holds v shown text k (pick d) t te = settle_picked d v text k te
    turn-Holds v shown text k empty t te =
        rw (watch_twice_seen v v none text (suc k) (eq_ℤ_refl v))
          (record { nonzero = t; date = refl; seen = refl; picker_date = refl })
    turn-Holds v shown text k (change d) t te = settle d v shown text k te

    Holds-state :
        (b : Binding) (v : ℤ) (shown : Bool)
        → Holds b (v, shown)
        → b ≡ state (some v) (if shown then some v else none) b.text (some (some v)) b.thrown
    Holds-state b v shown h =
        ap₂ (λ date picker_date. state date picker_date b.text b.seen b.thrown) h.date h.picker_date
        ∙ ap (λ x. state (some v) (if shown then some v else none) b.text x b.thrown) h.seen

    foldl-turn :
        (events : List Event) (b : Binding) (v : ℤ) (shown : Bool)
        → Holds b (v, shown)
        → All IsTruthy events
        → Holds (foldl turn b events) (foldl expect (v, shown) events)
    foldl-turn [] b v shown h t = h
    foldl-turn (e ∷ es) b v shown h (t, ts) =
        let kept = turn-Holds v shown b.text b.thrown e h.nonzero t in
        let next = expect (v, shown) e in
        foldl-turn es (turn b e) next.0 next.1 (rw (Holds-state b v shown h) kept) ts

    -- Where the widget takes dates as they are and no date is the falsy 0, after the first digest
    -- and any picks, clearings and changes the page has the date that was picked or set last, the
    -- watch has nothing left to do, and the widget shows that date, or no date if it was emptied
    -- and neither a pick nor another date has followed: emptying it does not reach the page.
    pub foldl-turn-Holds :
        (d : ℤ) (events : List Event)
        → eq_ℤ d (pos 0) ≡ false
        → All IsTruthy events
        → Holds (foldl turn (watch widget (linked d)) events) (foldl expect (d, true) events)
    foldl-turn-Holds d events t ts =
        foldl-turn events (watch widget (linked d)) d true
          (rw (watch_new d none [] none 0 t refl)
            (record { nonzero = t; date = refl; seen = refl; picker_date = refl }))
          ts
