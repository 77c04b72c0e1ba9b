-- ===== src/Tests/Routes.antt =====
-- The theorem of the routes at the default configuration.
use electric_power_digital_d.Common.{All, true}
use electric_power_digital_d.Http.Router.{routes, default_router_config}
use electric_power_digital_d.Http.Router.Guards.{IsGuarded, routes-IsGuarded}

routes-IsGuarded_example : All IsGuarded (routes true default_router_config)
routes-IsGuarded_example = routes-IsGuarded default_router_config
