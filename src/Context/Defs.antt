-- ===== src/Context/Defs.antt =====
-- context.py: the variable that holds the request's context, and the blocks that set it.
use prodkit_storage.Common.{ℕ, Option, none, some, String}

pub record RequestContext : Type 0 where
  pub tenant_id : Option ℕ
  pub actor_id : Option ℕ
  pub request_id : Option String
  pub trace_id : Option String

abbrev pub empty_context : RequestContext
empty_context = record { tenant_id = none; actor_id = none; request_id = none; trace_id = none }

-- `_current_context` in the running task.
abbrev pub Current : Type 0
Current = Option RequestContext

unfoldable pub get_request_context : Current → RequestContext
get_request_context none = empty_context
get_request_context (some c) = c

unfoldable pub get_tenant_id : Current → Option ℕ
unfolding get_request_context
get_tenant_id current = (get_request_context current).tenant_id

-- `with request_context(context): body`. The body may end by an exception, which is part of its
-- outcome `A`, and may leave the variable changed; `reset` puts back what the block found.
unfoldable pub request_context :
    {A : Type 0} → RequestContext → (RequestContext → Current → A × Current) → Current → A × Current
request_context context body current = let (a, left) = body context (some context) in (a, current)

unfoldable pub tenant_context :
    {A : Type 0} (tenant_id : ℕ) (actor_id : Option ℕ) (request_id trace_id : Option String)
    → (RequestContext → Current → A × Current)
    → Current
    → A × Current
unfolding request_context
tenant_context tenant_id actor_id request_id trace_id body current =
    request_context
      (record {
        tenant_id = some tenant_id;
        actor_id = actor_id;
        request_id = request_id;
        trace_id = trace_id;
      })
      body current
