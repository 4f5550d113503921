-- ===== src/Nbbo/Stale.antt =====
-- An NBBO whose books have all gone stale.
use Prim.Native.String.{String}
use trading_platform.Floats.{Floats}
use trading_platform.Nbbo.{Nbbo}
