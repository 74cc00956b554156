-- ===== src/Hookfs/Switch.antt =====
-- `enable_injection` and `disable_injection` against the macro `inject_write_data!` of
-- src/hookfs/mod.rs, which does not read the switch.
use toda.Base.{
  ℕ, ◌+◌, ◌<◌, ◌≡◌, ◌≢◌, refl, ap, ◌∙◌, Bool, true, false, Option, none, some, List, [], ◌∷◌,
  length,
}
use toda.Base.Int.{pos, ◌≤ℤ◌}
use toda.Action.{after_step, ok, err, panic, Result, ◌>>=◌}
use toda.Action.Post.{Returns, Returns->>=, Returns-value, Returns-state}
use toda.External.{RngLaws, FloatLaws}
use toda.Injector.Config.{InjectorConfig, MistakesConfig, zero_fill}
use toda.Injector.Context.{Context}
use toda.Injector.Filter.{build_path, match_path}
use toda.Injector.Filter.Mask.{selects}
use toda.Injector.Mistake.{two64}
use toda.Injector.Mistake.Zeroed.{has_zero, Zeroed, inject_write_data-Zeroed}
use toda.FilePath.{FilePath}
use toda.Hookfs.Os.{Platform, File}
use toda.Injector.Multi
use toda.Injector.Multi.{MultiInjector}
use toda.Hookfs.State.{Call, State, set_injection, rebuild_path, injecting}
use toda.Hookfs.Inject.{inject_write_data, write_data_of, rebuilt}

abbrev alter : (p : Platform) → List ℕ → FilePath → Call p (List ℕ)
alter p xs target s = injecting p (Multi.inject_write_data p.external s.fs.injector target xs) s

module _ (p : Platform) where
  unfoldable pub switched : Bool → State p → State p
  switched b s = record s { fs = set_injection p b s.fs }

  altered :
      (b : Bool) (r : Result FilePath) (xs : List ℕ) (s : State p)
      → after_step (alter p xs) r (switched b s)
        ≡ ((after_step (alter p xs) r s).0, switched b (after_step (alter p xs) r s).1)
  unfolding switched set_injection injecting
  altered b (ok target) xs s = refl
  altered b (err e) xs s = refl
  altered b panic xs s = refl

  written_at :
      (b : Bool) (o : Option File) (xs : List ℕ) (s : State p)
      → write_data_of p o xs (switched b s)
        ≡ ((write_data_of p o xs s).0, switched b (write_data_of p o xs s).1)
  unfolding write_data_of switched set_injection rebuilt rebuild_path injecting ◌>>=◌
  written_at b none xs s = refl
  written_at b (some f) xs s = altered b (rebuild_path p s.fs f.original_path) xs s

  -- The switch changes neither the data nor what the injectors do.
  inject_write_data-switched :
      (b : Bool) (fh : ℕ) (xs : List ℕ) (s : State p)
      → inject_write_data p fh xs (switched b s)
        ≡ ((inject_write_data p fh xs s).0, switched b (inject_write_data p fh xs s).1)
  unfolding inject_write_data switched set_injection
  inject_write_data-switched b fh xs s = written_at b (p.files.get fh s.fs.opened_files) xs s

-- A zero is put in where none was.
Zeroed-ne : (xs ys : List ℕ) → has_zero xs ≡ false → Zeroed xs ys → ys ≢ xs
Zeroed-ne xs ys h z e = cc (ap has_zero e)

module _ (p : Platform) (rng_laws : RngLaws p.external) (float_laws : FloatLaws p.external)
    (conf : MistakesConfig) (path : FilePath) (certain : pos 100 ≤ℤ conf.filter.percent)
    (on_path : match_path p.external (build_path p.external conf.filter.path) path ≡ true)
    (on_writes : selects p.external conf.filter.methods 14 ≡ true)
    (zeros : conf.mistake.filling ≡ zero_fill) (some_length : 0 < conf.mistake.max_length)
    (some_occurrence : 0 < conf.mistake.max_occurrences)
    (fits : conf.mistake.max_occurrences + 1 < two64) (xs : List ℕ) (nonempty : 0 < length xs)
    (size : length xs + 1 < two64) where
  abbrev configured : MultiInjector p.external
  configured = Multi.build p.external (InjectorConfig.mistake conf ∷ [])

  list-Zeroed :
      (c : Context p.external)
      → Returns (Zeroed xs) (Multi.inject_write_data p.external configured path xs c)
  unfolding Multi.inject_write_data Multi.build
  list-Zeroed c =
      Returns->>= (Zeroed xs) (Zeroed xs) _ _ c
        (inject_write_data-Zeroed p.external rng_laws float_laws conf path certain on_path on_writes
          xs c zeros some_length some_occurrence fits nonempty size)
        λ ys c1 z. z

  alter-Zeroed :
      (fh : ℕ) (s : State p) (f : File)
      → s.fs.injector ≡ configured
      → p.files.get fh s.fs.opened_files ≡ some f
      → rebuild_path p s.fs f.original_path ≡ ok path
      → Returns (Zeroed xs) (inject_write_data p fh xs s)
  unfolding inject_write_data write_data_of rebuilt injecting ◌>>=◌
  alter-Zeroed fh s f injectors open_at rebuilds =
      rw (open_at, rebuilds, injectors) (Returns-state (Zeroed xs) _ _ _ (list-Zeroed s.context))

  -- Written data is altered whether injection is enabled or not: where a mistake injector that fills
  -- in zeros, at least one byte long and at least once, is certain to hit the writes of the path at
  -- which an open file is shown, and is the only injector, data that is not empty and has no zero in
  -- it is replaced by other data of the same length, whatever is drawn; and which data that is does
  -- not depend on the switch. The data and `max_occurrences` are fewer than a usize counts.
  pub inject_write_data-altered :
      (fh : ℕ) (s : State p) (f : File) (b : Bool)
      → has_zero xs ≡ false
      → s.fs.injector ≡ configured
      → p.files.get fh s.fs.opened_files ≡ some f
      → rebuild_path p s.fs f.original_path ≡ ok path
      → (ys : List ℕ) × ((inject_write_data p fh xs s).0 ≡ ok ys)
        × ((inject_write_data p fh xs (switched p b s)).0 ≡ ok ys)
        × (length ys ≡ length xs)
        × (ys ≢ xs)
  inject_write_data-altered fh s f b none_zero injectors open_at rebuilds =
      let (ys, e, z) =
        Returns-value (Zeroed xs) (inject_write_data p fh xs s)
          (alter-Zeroed fh s f injectors open_at rebuilds) in
      (
        ys,
        e,
        ap (λ r. r.0) (inject_write_data-switched p b fh xs s) ∙ e,
        z.0,
        Zeroed-ne xs ys none_zero z,
      )
