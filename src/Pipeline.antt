-- ===== src/Pipeline.antt =====
-- pkg/pipeline: binning, the moving average and the processor.
pub mod Binning
pub mod MovingAverage
pub mod Operations
pub mod Processor
mod Tests
