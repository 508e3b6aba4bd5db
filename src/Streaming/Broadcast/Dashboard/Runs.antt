-- ===== src/Streaming/Broadcast/Dashboard/Runs.antt =====
-- Runs of the dashboard stream, and its theorem at a concrete frame.
use mgba_server.Common.{◌≡◌, refl, [], ◌∷◌}
use mgba_server.Streaming.Broadcast.{instance_frame}
use mgba_server.Streaming.Broadcast.Dashboard.{DashboardStream, dashboard_frame, open_dashboard}
use mgba_server.Streaming.Broadcast.Dashboard.Single.{
  part, part_turn, no_metrics, dashboard_frame-instance_frame,
}
use mgba_server.Streaming.Broadcast.Sample.{outside, config, the_cache, frame}

abbrev fresh : DashboardStream outside
fresh = open_dashboard outside config the_cache []

dashboard_frame-instance_frame_example :
    part_turn outside (1 ∷ []) (dashboard_frame outside config (1 ∷ []) 0 (frame 5) fresh)
    ≡ no_metrics outside
        (instance_frame outside config (1 ∷ []) 0 (frame 5) (part outside (1 ∷ []) fresh))
dashboard_frame-instance_frame_example =
    dashboard_frame-instance_frame outside config refl (1 ∷ []) 0 (frame 5) fresh
