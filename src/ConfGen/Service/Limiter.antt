-- ===== src/ConfGen/Service/Limiter.antt =====
-- AssembleConfig: the memory limiter is the first processor of every pipeline.
use telemetry_controller.Prelude.{String, ◌≡◌, refl, ap, [], ◌∷◌, map}
use telemetry_controller.Pipelines.{Pipeline}
use telemetry_controller.ConfGen.{OtelColConfigInput, Pipelines}
use telemetry_controller.ConfGen.Configured.{fixed-IsKey}
use telemetry_controller.ConfGen.Service.{
  generate_named_pipelines, limit_memory, limited, assemble_pipelines,
}

unfoldable pub with_limiter : String × Pipeline → String × Pipeline
with_limiter (name, p) = (name, record p { processors = "memory_limiter" ∷ p.processors })

limit_memory-map : (ps : Pipelines) → limit_memory ps ≡ map with_limiter ps
unfolding limit_memory with_limiter
limit_memory-map [] = refl
limit_memory-map ((name, p) ∷ rest) = ap (λ ps. with_limiter (name, p) ∷ ps) (limit_memory-map rest)

-- Whatever the resources, AssembleConfig leaves the named pipelines as they are, but for the memory
-- limiter, which it puts before the processors of each: the processors always have one.
pub assemble_pipelines-map :
    (i : OtelColConfigInput) → assemble_pipelines i ≡ map with_limiter (generate_named_pipelines i)
unfolding assemble_pipelines limited
assemble_pipelines-map i =
    let (p, e) = (fixed-IsKey i).1 in rw e (limit_memory-map (generate_named_pipelines i))
