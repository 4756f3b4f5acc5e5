-- ===== src/Rpc/FilterMgr.antt =====
-- ytlib/ytrpc/rpc_util/filter.hpp: FilterMgr. `Req` stands for the three arguments of a handle with the
-- state that it may change, and `Rsp` for its status with the new state.
pub mod Order
mod Tests
use ytlib.Base.{List, [], ◌∷◌, ◌++◌}

abbrev pub RpcHandle {ℓ} : Type ℓ → Type ℓ → Type ℓ
RpcHandle Req Rsp = Req → Rsp

abbrev pub FilterHandle {ℓ} : Type ℓ → Type ℓ → Type ℓ
FilterHandle Req Rsp = Req → RpcHandle Req Rsp → Rsp

pub register_filter {ℓ} :
    {Req : Type ℓ} {Rsp : Type ℓ}
    → FilterHandle Req Rsp
    → List (FilterHandle Req Rsp)
    → List (FilterHandle Req Rsp)
register_filter filter filter_list = filter_list ++ (filter ∷ [])

-- The loop of `InvokeRpc`, from the handle `cur_handle` on
pub bind_filters {ℓ} :
    {Req : Type ℓ} {Rsp : Type ℓ}
    → List (FilterHandle Req Rsp)
    → RpcHandle Req Rsp
    → RpcHandle Req Rsp
bind_filters [] cur_handle = cur_handle
bind_filters (filter ∷ filter_list) cur_handle =
    bind_filters filter_list (λ req. filter req cur_handle)

pub invoke_rpc {ℓ} :
    {Req : Type ℓ} {Rsp : Type ℓ}
    → List (FilterHandle Req Rsp)
    → RpcHandle Req Rsp
    → RpcHandle Req Rsp
invoke_rpc filter_list rpc req = bind_filters filter_list rpc req
