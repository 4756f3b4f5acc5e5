-- ===== src/Rpc/FilterMgr/Order.antt =====
-- The filters run from the last that was registered to the first, around the call itself.
use ytlib.Base.{◌≡◌, refl, ap, List, [], ◌∷◌, ◌++◌}
use ytlib.Rpc.FilterMgr.{RpcHandle, FilterHandle, register_filter, bind_filters, invoke_rpc}

pub bind_filters-append {ℓ} :
    {Req : Type ℓ} {Rsp : Type ℓ} (fs gs : List (FilterHandle Req Rsp)) (rpc : RpcHandle Req Rsp)
    → bind_filters (fs ++ gs) rpc ≡ bind_filters gs (bind_filters fs rpc)
unfolding bind_filters
bind_filters-append [] gs rpc = refl
bind_filters-append (f ∷ fs) gs rpc = bind_filters-append fs gs (λ req. f req rpc)

-- The filter that was registered last gets the request first, and the call through all of the earlier
-- filters as its handle.
pub invoke_rpc-register_filter {ℓ} :
    {Req : Type ℓ} {Rsp : Type ℓ} (fs : List (FilterHandle Req Rsp)) (f : FilterHandle Req Rsp)
    (rpc : RpcHandle Req Rsp) (req : Req)
    → invoke_rpc (register_filter f fs) rpc req ≡ f req (invoke_rpc fs rpc)
unfolding invoke_rpc register_filter bind_filters
invoke_rpc-register_filter fs f rpc req = ap (λ h. h req) (bind_filters-append fs (f ∷ []) rpc)
