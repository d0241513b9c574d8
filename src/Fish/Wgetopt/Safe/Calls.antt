-- ===== src/Fish/Wgetopt/Safe/Calls.antt =====
-- wgetopt.rs: a whole call of `next_opt`.
use reverse_rewrite.Common.{
  ℕ, ◌≤◌, ◌≡◌, ◌≢◌, ◌⊎◌, inl, inr, refl, sym, ap, subst, ◌∙◌, arith, Bool, true, false, not, ◌&&◌,
  Option, none, some, [], ◌∷◌, leb, ltb, ◌==◌, ==→eq, if◌then◌else◌, length,
}
use mathlib.Core.Bool.{true≢false}
use reverse_rewrite.Fish.Wgetopt.{
  Text, Wide, NextArgv, finished, unpermuted_non_option, found_option, Wgetopter, is_empty,
  name_length, find_matching_long_opt,
}
use reverse_rewrite.Fish.Wgetopt.Scan.{
  stripped, initialize, next_argv, handle_short_opt, as_short, or_short, after_argv,
  handle_long_opt, try_long, handle_option, wgetopt_inner, next_opt,
}
use reverse_rewrite.Fish.Wgetopt.Safe.{
  Returns, bind-Returns, if-Returns, inside, some-eq, AtOption, Between, AtText, Stepped, Ready,
  ShortDone, MatchDone, Answered, Done, CanScan, char-inside, at-Returns, get-Returns, slice-bind,
}
use reverse_rewrite.Fish.Wgetopt.Safe.Arguments.{next_argv-Stepped}
use reverse_rewrite.Fish.Wgetopt.Safe.Options.{nonempty, short-Done, match-Done}

module _ (wide : Wide) where
  pub as_short-Done :
      (g : Wgetopter) (before : ℕ) → AtText g → Returns Done (as_short wide g before)
  as_short-Done g before h =
      bind-Returns ShortDone Done (handle_short_opt wide g) _ (short-Done wide g h)
        λ a _ d. shown a d
    where
      shown : (a : ℕ × Wgetopter) → ShortDone a → Answered (some a.0) a.1
      shown (c, h) (inl d) = inl d
      shown (c, h) (inr e) = inr (inl (ap some e))

  pub long-Returns : (g : Wgetopter) → AtText g → Returns (λ (b : Bool). Unit) (try_long wide g)
  long-Returns g (_, (arg, at, two), _, _) =
      let Any = λ (b : Bool). Unit in
      if-Returns Any (not (is_empty g.longopts) && ltb g.wopt_index (length g.argv)) _ (some false)
        (λ _. get-Returns wide Any g _ (inside g.wopt_index g.argv at) λ arg' at'.
          at-Returns wide Any arg' 0 _ (omega arith) λ first e.
            at-Returns wide Any arg' 1 _
              (subst (λ w. 1 ≤ length w) (some-eq (sym at ∙ at')) (omega arith)) λ second e'. _)
        λ _. _

  pub option-Done :
      (g : Wgetopter) (before : ℕ) → AtText g → Returns Done (handle_option wide g before)
  unfolding handle_option handle_long_opt
  option-Done g before h = bind-Returns _ Done (try_long wide g) _ (long-Returns g h) λ long _ _.
      if-Returns Done long _ (as_short wide g before)
        (λ _.
          bind-Returns MatchDone Done (handle_long_opt wide g before) (or_short wide)
            (match-Done wide (find_matching_long_opt g (name_length g.remaining_text)) g before h)
            λ a _ d. or_short-Done a d)
        λ _. as_short-Done g before h
    where
      or_short-Done :
          (a : Option ℕ × (Wgetopter × ℕ)) → MatchDone a → Returns Done (or_short wide a)
      or_short-Done (some c, (g', i)) d = inl d
      or_short-Done (none, (g', i)) d = as_short-Done g' i d

  pub after_argv-Done :
      (before : ℕ) (a : NextArgv × Wgetopter) → Stepped a → Returns Done (after_argv wide before a)
  after_argv-Done before (finished, g) h = inr (inr refl)
  after_argv-Done before (unpermuted_non_option, g) (o, (blank, z)) =
      inl (o, inl (ap is_empty blank), z)
  after_argv-Done before (found_option, g) h = option-Done g before h

  pub strip-Returns :
      (c : ℕ) (s : Text) → c ≢ 0 → Returns (λ (r : Bool × Text). Unit) (stripped wide c s)
  strip-Returns c s no_nul =
      let Any = λ (r : Bool × Text). Unit in
      at-Returns wide Any s 0 _ (omega arith) λ first e.
        if-Returns Any (first == c) _ _
          (λ t.
            slice-bind wide Any 1 s _
              (char-inside wide s 0 first (omega arith) e
                λ nul. no_nul (sym (==→eq first c t) ∙ nul))
              _)
          λ _. _

  pub initialize-Between : (g : Wgetopter) → 1 ≤ length g.argv → Returns Between (initialize wide g)
  unfolding initialize
  initialize-Between g h =
      bind-Returns _ Between (stripped wide b'-' g.shortopts) _
        (strip-Returns b'-' g.shortopts (λ e. absurd (omega (arith, e))))
        λ (in_order, s) _ _.
          bind-Returns (λ (r : Bool × Text). Unit) Between
            (if in_order then some (false, s) else stripped wide b'+' s) _
            (if-Returns (λ (r : Bool × Text). Unit) in_order (some (false, s))
              (stripped wide b'+' s) (λ _. _)
              λ _. strip-Returns b'+' s (λ e. absurd (omega (arith, e))))
            λ (required, s') _ _.
              bind-Returns _ Between (stripped wide b':' s') _
                (strip-Returns b':' s' (λ e. absurd (omega (arith, e))))
                λ r _ _. ((omega arith, omega arith, h), (refl, refl))

  pub start-Ready :
      (g : Wgetopter)
      → CanScan g
      → Returns Ready (if g.initialized then some g else initialize wide g)
  start-Ready g (inl (new, some_args, _)) =
      if-Returns Ready g.initialized (some g) (initialize wide g)
        (λ t. absurd (true≢false (sym t ∙ new)))
        λ _. from_between (initialize wide g) (initialize-Between g some_args)
    where
      from_between : (o : Option Wgetopter) → Returns Between o → Returns Ready o
      from_between none h = h
      from_between (some h) (o, (blank, z)) = (o, inl (ap is_empty blank), z)
  start-Ready g (inr (o, cluster, z)) =
      if-Returns Ready g.initialized (some g) (initialize wide g) (λ _. (o, cluster, z))
        λ f. absurd (true≢false (sym z ∙ f))

  pub inner-Done :
      (g : Wgetopter) (before : ℕ) → CanScan g → Returns Done (wgetopt_inner wide g before)
  unfolding wgetopt_inner
  inner-Done g before can =
      bind-Returns Ready Done (if g.initialized then some g else initialize wide g) _
        (start-Ready g can)
        λ h _ (o, cluster, z).
          let k = record h { woptarg = none } in
          if-Returns Done (is_empty h.remaining_text) _ (handle_option wide k before)
            (λ e.
              bind-Returns Stepped Done (next_argv wide k) (after_argv wide before)
                (next_argv-Stepped wide k (o, (empty-eq h.remaining_text e, z)))
                λ a _ d. after_argv-Done before a d)
            (λ e.
              option-Done k before (o, at_option h e cluster, nonempty wide h.remaining_text e, z))
    where
      empty-eq : (s : Text) → is_empty s ≡ true → s ≡ []
      empty-eq [] h = refl
      empty-eq (c ∷ cs) h = cc

      at_option :
          (g : Wgetopter)
          → is_empty g.remaining_text ≡ false
          → (is_empty g.remaining_text ≡ true) ⊎ AtOption g
          → AtOption g
      at_option g e (inl t) = absurd (true≢false (sym t ∙ e))
      at_option g e (inr a) = a

-- A call for the next option of a scanner that is new, over at least one argument, or ready, does not
-- panic; and the scanner is ready for another call, its indices in order and within the arguments,
-- unless the answer is `?` or that the scan has finished.
pub next_opt-Returns :
    (wide : Wide) (g : Wgetopter) → CanScan g → Returns (λ (o, h). Answered o h) (next_opt wide g)
unfolding next_opt
next_opt-Returns wide g can =
    let Answer = λ (a : Option ℕ × Wgetopter). Answered a.0 a.1 in
    if-Returns Answer (leb g.wopt_index (length g.argv)) _ none
      (λ _.
        bind-Returns Done Answer (wgetopt_inner wide g 0) _ (inner-Done wide g 0 can) λ a _ d. d)
      λ f. ground (arith, f, bounded can)
  where
    bounded : CanScan g → g.wopt_index ≤ length g.argv
    bounded (inl (_, _, r)) = r
    bounded (inr ((_, _, r), _, _)) = r
