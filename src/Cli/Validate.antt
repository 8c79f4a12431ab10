-- ===== src/Cli/Validate.antt =====
-- The command `validate` of cli.py.
pub mod Returns
use vdev_lab.Base.{
  suc, ◌≤◌, ◌≡◌, ◌⊎◌, inl, inr, refl, ap, sym, subst, String, Bool, true, false, List, [], ◌∷◌,
  ◌++◌, All, length, length-append, arith, if◌then◌else◌,
}
use vdev_lab.Base.Int.{ℤ, pos}
use vdev_lab.Base.Result.{Result, ok, err, Exception, scenario_error, ok-injective}
use vdev_lab.Base.Action.{pure, >>=-eq-ok, ◌>>=◌}
use vdev_lab.Scenario.{ScenarioDefinition}
use vdev_lab.Cli.{
  Services, validate_files, validate_command, validated, invalid, expand, expand_all, or_path,
}

module _ {ℓ} {W : Type ℓ} (services : Services W) where
  -- A file that was loaded, in some state of the world.
  abbrev pub Loads : String → Type ℓ
  Loads path =
      (scenario : ScenarioDefinition) × (w : W) × (w' : W) × (services.load_scenario path w
        ≡ (ok scenario, w'))

  -- A file in which a mistake was found, behind others that were loaded.
  pub record Rejected (paths : List String) : Type ℓ where
    pub earlier : List String
    pub path : String
    pub later : List String
    pub place : paths ≡ earlier ++ (path ∷ later)
    pub loaded : All Loads earlier
    pub field : String
    pub message : String
    pub before : W
    pub after : W
    pub found : services.load_scenario path before ≡ (err (scenario_error field message), after)

  abbrev pub Verdict : List String → ℤ → Type ℓ
  Verdict paths code = ((code ≡ pos 0) × All Loads paths) ⊎ ((code ≡ pos 2) × Rejected paths)

  Verdict-cons :
      (path : String) (paths : List String) (code : ℤ)
      → Loads path
      → Verdict paths code
      → Verdict (path ∷ paths) code
  Verdict-cons path paths code l (inl (zero, ls)) = inl (zero, (l, ls))
  Verdict-cons path paths code l (inr (two, r)) = inr (
    two,
    record {
      earlier = path ∷ r.earlier;
      path = r.path;
      later = r.later;
      place = ap (λ ps. path ∷ ps) r.place;
      loaded = (l, r.loaded);
      field = r.field;
      message = r.message;
      before = r.before;
      after = r.after;
      found = r.found;
    },
  )

  invalid-Verdict :
      (path : String) (paths : List String) (e : Exception) (w w' : W) {code : ℤ} {end : W}
      → services.load_scenario path w ≡ (err e, w')
      → invalid services e w' ≡ (ok code, end)
      → Verdict (path ∷ paths) code
  invalid-Verdict path paths (scenario_error field message) w w' l h =
      let (_, w1, _, h1) = >>=-eq-ok _ _ w' h in
      inr (
        sym (ok-injective (ap (λ t. t.0) h1)),
        record {
          earlier = [];
          path = path;
          later = paths;
          place = refl;
          loaded = tt;
          field = field;
          message = message;
          before = w;
          after = w';
          found = l;
        },
      )
  invalid-Verdict path paths _ w w' l h = cc h

  validated-Verdict :
      (path : String) (paths : List String) (w : W) {code : ℤ} {end : W}
      (r : Result ScenarioDefinition × W)
      → services.load_scenario path w ≡ r
      → ((w' : W) → validate_files services paths w' ≡ (ok code, end) → Verdict paths code)
      → validated services path (validate_files services paths) r ≡ (ok code, end)
      → Verdict (path ∷ paths) code
  validated-Verdict path paths w (err e, w') l rest h = invalid-Verdict path paths e w w' l h
  validated-Verdict path paths w {code} (ok scenario, w') l rest h =
      let (_, w1, _, k) = >>=-eq-ok _ _ w' h in
      Verdict-cons path paths code (scenario, w, w', l) (rest w1 k)

  validate_files-Verdict :
      (paths : List String) (w : W) {code : ℤ} {end : W}
      → validate_files services paths w ≡ (ok code, end)
      → Verdict paths code
  unfolding validate_files
  validate_files-Verdict [] w h = inl (sym (ok-injective (ap (λ t. t.0) h)), tt)
  validate_files-Verdict (path ∷ paths) w h =
      validated-Verdict path paths w (services.load_scenario path w) refl
        (λ w' k. validate_files-Verdict paths w' k) h

  or_path-length : (matches : List String) (path : String) → 1 ≤ length (or_path matches path)
  or_path-length [] path = omega arith
  or_path-length (match ∷ matches) path = omega arith

  expand-length :
      (path : String) (w : W) {paths : List String} {end : W}
      → expand services path w ≡ (ok paths, end)
      → 1 ≤ length paths
  unfolding expand
  expand-length path w {paths} {end} h = by_magic (services.has_magic path) h
    where
      by_magic :
          (b : Bool)
          → (if b
                then (services.sorted_glob path >>= λ matches. pure (or_path matches path))
                else pure (path ∷ []))
              w
            ≡ (ok paths, end)
          → 1 ≤ length paths
      by_magic true k =
          let (matches, w1, _, k1) = >>=-eq-ok _ _ w k in
          subst (λ ps. 1 ≤ length ps) (ok-injective (ap (λ t. t.0) k1))
            (or_path-length matches path)
      by_magic false k =
          subst (λ ps. 1 ≤ length ps) (ok-injective (ap (λ t. t.0) k)) (or_path-length [] path)

  expand_all-length :
      (arguments : List String) (w : W) {paths : List String} {end : W}
      → expand_all services arguments w ≡ (ok paths, end)
      → length arguments ≤ length paths
  unfolding expand_all
  expand_all-length [] w h = omega arith
  expand_all-length (path ∷ arguments) w h =
      let (first, w1, h1, k) = >>=-eq-ok _ _ w h in
      let (rest, w2, h2, k2) = >>=-eq-ok _ _ w1 k in
      let one = expand-length path w h1 in
      let more = expand_all-length arguments w1 h2 in
      let sum = length-append first rest in
      subst (λ ps. suc (length arguments) ≤ length ps) (ok-injective (ap (λ t. t.0) k2))
        (omega arith)

  -- Where the command `validate` returns, it looked at no fewer files than arguments. It returns 0
  -- where every file was loaded, and otherwise 2: then a mistake was found in one of the files, and
  -- all the files before that one were loaded.
  pub validate_command-Verdict :
      (arguments : List String) (w : W) {code : ℤ} {end : W}
      → validate_command services arguments w ≡ (ok code, end)
      → (paths : List String) × (w' : W) × (expand_all services arguments w ≡ (ok paths, w'))
        × (length arguments ≤ length paths)
        × Verdict paths code
  unfolding validate_command
  validate_command-Verdict arguments w h =
      let (paths, w1, h1, k) = >>=-eq-ok _ _ w h in
      (paths, w1, h1, expand_all-length arguments w h1, validate_files-Verdict paths w1 k)
