-- ===== src/Runtime.antt =====
-- Parts of the support code that Cython puts into HybridLock.c, and the wrappers that take arguments.
pub mod CodeCache
pub mod Bisect
pub mod Lookup
pub mod Extends
pub mod Placed
pub mod Insert
pub mod GlobalNames
pub mod ErrorState
pub mod ExceptionMatches
pub mod Subclasses
pub mod Metaclass
pub mod Raise
pub mod Misuse
pub mod Raises
pub mod Traceback
pub mod Traced
pub mod IntFromPy
pub mod IntBounds
pub mod IntToPy
pub mod Arguments
pub mod Wrappers
pub mod Binding
