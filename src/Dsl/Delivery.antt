-- ===== src/Dsl/Delivery.antt =====
-- The arguments of the DSL reach the classes of the sources.
use alvis.Value.{Value}
use alvis.Dsl.Receives.{Receives}
