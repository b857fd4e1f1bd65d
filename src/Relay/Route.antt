-- ===== src/Relay/Route.antt =====
-- src/domain/route.rs: a route as the relay uses it.
use galaxy_router.Base.{List, Text}
use galaxy_router.Base.Int.{ℤ}

pub record RouteItemInfo : Type 0 where
  pub channel_id : Text
  pub model_name : Text
  pub priority : ℤ  -- i32
  pub weight : ℤ  -- i32

pub record RouteInfo : Type 0 where
  pub id : Text
  pub name : Text
  pub items : List RouteItemInfo
