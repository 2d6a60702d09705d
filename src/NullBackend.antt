-- ===== src/NullBackend.antt =====
-- src/null_backend.ts: each method that has to do with results throws, or returns a rejected
-- promise.
use node_celery_ts.Result.{Error, Result, err}
use node_celery_ts.Text.{Text}

-- How a call of a method ends.
pub data Call (A : Type 0) : Type 0 where
  throws : Error → Call A
  rejected fulfilled : Call A

unfoldable pub put : Call Text
put = rejected

unfoldable pub get : {M : Type 0} → Call M
get = rejected

unfoldable pub delete : Call Text
delete = throws Error.generic

unfoldable pub end : Call (Unit {0})
end = fulfilled

unfoldable pub disconnect : Call (Unit {0})
unfolding end
disconnect = end

unfoldable pub uri : Result Text
uri = err Error.generic
