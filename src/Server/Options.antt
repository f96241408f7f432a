-- ===== src/Server/Options.antt =====
-- The configuration that NewNotnetsServer arrives at.
use notnets_grpc.Prelude.{
  ◌≡◌, refl, List, [], ◌∷◌, Option, none, arith, ℤ, pos, int_eq, if◌then◌else◌, false,
}
use notnets_grpc.Services.{HandlerMap}
use notnets_grpc.Server.{
  ServerOption, unary_interceptor, set_message_size, NotnetsServer, default_message_size, apply_all,
  with_default_size, new_notnets_server, zero_server,
}

module _ {I : Type 0} where
  pub last_size : ℤ → List (ServerOption I) → ℤ
  last_size n [] = n
  last_size n (unary_interceptor i ∷ os) = last_size n os
  last_size n (set_message_size m ∷ os) = last_size m os

  pub last_interceptor : Option I → List (ServerOption I) → Option I
  last_interceptor i [] = i
  last_interceptor i (unary_interceptor j ∷ os) = last_interceptor j os
  last_interceptor i (set_message_size m ∷ os) = last_interceptor i os

  module _ {M H : Type 0} (map : HandlerMap M H) where
    apply_all_lem :
        (opts : List (ServerOption I)) (s : NotnetsServer I M)
        → apply_all opts s ≡ record s {
          interceptor = last_interceptor s.interceptor opts;
          message_size = last_size s.message_size opts;
        }
    unfolding apply_all last_size last_interceptor
    apply_all_lem [] s = refl
    apply_all_lem (unary_interceptor i ∷ os) s = apply_all_lem os (record s { interceptor = i })
    apply_all_lem (set_message_size n ∷ os) s = apply_all_lem os (record s { message_size = n })

    -- A new server has the message size of the last SetMessageSize option, or 2048 if that is 0 or
    -- there is none, and the interceptor of the last UnaryInterceptor option; it serves nothing, has
    -- no connections and is not stopped.
    pub new_notnets_server_lem :
        (opts : List (ServerOption I))
        → new_notnets_server map opts ≡ record {
          handlers = map.no_handlers;
          interceptor = last_interceptor none opts;
          lis = none;
          conns = [];
          stop = false;
          message_size =
              if int_eq (last_size (pos 0) opts) (pos 0)
              then default_message_size
              else last_size (pos 0) opts;
        }
    unfolding new_notnets_server with_default_size
    new_notnets_server_lem opts = rw (apply_all_lem opts (zero_server map)) (ground arith)
