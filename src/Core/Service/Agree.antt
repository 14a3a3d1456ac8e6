-- ===== src/Core/Service/Agree.antt =====
-- The two copies of the parameter loop.
use rayo.Base.{◌≡◌, refl, String, List, [], ◌∷◌, State, pure, Option-cases, ◌⊎◌, inl, inr}
use rayo.Dispatch.Types.{HandlerResponse, EventLoop}
use rayo.Router.{Params}
use rayo.Core.Params.{ParamKind}
use rayo.Core.Kwargs.{
  Kwargs, Conversions, Outcome, ok, error, find_param, convert_and_insert, build_from, build_kwargs,
}
use rayo.Core.Service.{sync_job}

module _ {W : Type 0} (c : Conversions) (run : Kwargs → State (EventLoop W) HandlerResponse) where
  -- What `handle` does with the outcome of `build_kwargs`, for a handler that is just run.
  abbrev pub finish_with : Outcome Kwargs → State (EventLoop W) HandlerResponse
  finish_with (ok kwargs) = run kwargs
  finish_with (error error_response) = pure error_response

  Outcome-cases :
      {A : Type 0} (o : Outcome A)
      → ((a : A) × (o ≡ ok a)) ⊎ ((r : HandlerResponse) × (o ≡ error r))
  Outcome-cases (ok a) = inl (a, refl)
  Outcome-cases (error r) = inr (r, refl)

  sync_job-build_from :
      (kwargs : Kwargs) (specs : List (String × ParamKind)) (params : Params)
      → sync_job c run kwargs specs params ≡ finish_with (build_from c kwargs specs params)
  unfolding sync_job build_from
  sync_job-build_from kwargs [] params = refl
  sync_job-build_from kwargs ((name, kind) ∷ specs) params =
      elim (Option-cases (find_param params name)) [
        | inl e ↦ rw (e, sync_job) refl
        | inr (raw, e) ↦
            rw (e, sync_job)
              (elim (Outcome-cases (convert_and_insert c kwargs name kind raw)) [
                | inl (kwargs', f) ↦ rw (f, sync_job) (sync_job-build_from kwargs' specs params)
                | inr (r, f) ↦ rw (f, sync_job) refl
              ])
      ]

  -- The blocking task of a sync handler validates as `build_kwargs` does for an async one: it runs
  -- the handler on the same keyword arguments, or answers with the same error.
  pub sync_job-build_kwargs :
      (specs : List (String × ParamKind)) (params : Params)
      → sync_job c run [] specs params ≡ finish_with (build_kwargs c specs params)
  unfolding build_kwargs
  sync_job-build_kwargs specs params = sync_job-build_from [] specs params
